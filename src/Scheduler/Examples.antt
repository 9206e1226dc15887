-- ===== src/Scheduler/Examples.antt =====
-- Test data for the scheduler, and the theorem applied to it.
use omegacrawl.Base.{ℕ, ◌+◌, ◌-◌, ◌*◌, ◌/◌, ◌%◌, ◌<◌, ◌≡◌, ◌⊎◌, true, false, [], ◌∷◌}
use omegacrawl.Base.Int.{pos}
use omegacrawl.Errors.Classify.{codes}
use omegacrawl.Scheduler.Cron.{Scanner, Calendar, Fields, match_cron, next_run}
use omegacrawl.Scheduler.Next.{minute_after, next_run_lem}

-- Instants count from a Sunday, the first of a month; every month has 30 days.
abbrev plain_calendar : Calendar
plain_calendar = record {
  minute_of = λ t. t / 60_000_000_000 % 60;
  hour_of = λ t. t / 3_600_000_000_000 % 24;
  day_of = λ t. t / 86_400_000_000_000 % 30 + 1;
  month_of = λ t. t / 2_592_000_000_000_000 % 12 + 1;
  weekday_of = λ t. t / 86_400_000_000_000 % 7;
}

-- One digit, no ranges and no steps.
abbrev digits : Scanner
digits = record {
  decimal = λ n. (n + 48) ∷ [];
  comma_parts = λ s. s ∷ [];
  scan_range = λ s. (pos 0, pos 0);
  scan_step = λ s. pos 0;
}

abbrev at_three_past : Fields
at_three_past = record {
  minute = codes "3";
  hour = codes "*";
  dom = codes "*";
  month = codes "*";
  dow = codes "*";
}

next_run_lem_example :
    ((k : ℕ) × (k < 525600)
      × (next_run digits plain_calendar at_three_past 7
          ≡ minute_after digits plain_calendar (7 - 7 % 60_000_000_000) k)
      × (match_cron digits plain_calendar at_three_past
            (minute_after digits plain_calendar (7 - 7 % 60_000_000_000) k)
          ≡ true)
      × ((j : ℕ)
          → j < k
          → match_cron digits plain_calendar at_three_past
              (minute_after digits plain_calendar (7 - 7 % 60_000_000_000) j)
            ≡ false))
    ⊎ ((next_run digits plain_calendar at_three_past 7 ≡ 7 + 1440 * 60_000_000_000)
        × ((j : ℕ)
            → j < 525600
            → match_cron digits plain_calendar at_three_past
                (minute_after digits plain_calendar (7 - 7 % 60_000_000_000) j)
              ≡ false))
next_run_lem_example = next_run_lem digits plain_calendar at_three_past 7
