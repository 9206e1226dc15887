-- ===== src/Scheduler/Cron.antt =====
-- internal/scheduler/scheduler.go: `matchField`, `matchCron` and the search for the next minute of a
-- five field expression. Instants are nanoseconds. What time gives of an instant and what fmt and
-- strings read and print are parameters.
use omegacrawl.Base.{
  ℕ, zero, suc, ◌+◌, ◌-◌, ◌*◌, ◌%◌, Bool, true, false, ◌&&◌, ◌||◌, List, [], ◌∷◌, ◌==◌,
  if◌then◌else◌,
}
use omegacrawl.Base.Int.{ℤ, pos, negsuc, int_leb}
use omegacrawl.Errors.Classify.{codes}
use omegacrawl.Errors.Contains.{bytes_equal, contains}

-- What time says of an instant.
pub record Calendar : Type 0 where
  pub minute_of : ℕ → ℕ
  pub hour_of : ℕ → ℕ
  pub day_of : ℕ → ℕ
  pub month_of : ℕ → ℕ
  pub weekday_of : ℕ → ℕ

-- `fmt.Sprintf("%d")`, `strings.Split` at a comma with `strings.TrimSpace` of each part, and
-- `fmt.Sscanf` with "%d-%d" and "*/%d", where what is not read stays 0.
pub record Scanner : Type 0 where
  pub decimal : ℕ → List ℕ
  pub comma_parts : List ℕ → List (List ℕ)
  pub scan_range : List ℕ → ℤ × ℤ
  pub scan_step : List ℕ → ℤ

pub record Fields : Type 0 where
  pub minute : List ℕ
  pub hour : List ℕ
  pub dom : List ℕ
  pub month : List ℕ
  pub dow : List ℕ

-- `step > 0 && (value-min)%step == 0`, for a value that is at least `min`.
unfoldable pub on_step : ℤ → ℕ → Bool
on_step (pos zero) offset = false
on_step (pos (suc n)) offset = offset % suc n == 0
on_step (negsuc n) offset = false

abbrev pub is_any : List ℕ → Bool
is_any field = bytes_equal field (codes "*")

module _ (S : Scanner) where
  unfoldable pub match_part : List ℕ → ℕ → ℕ → Bool
  unfolding on_step
  match_part p value min =
      if bytes_equal p (S.decimal value)
      then true
      else if contains p (codes "-")
          && (int_leb (S.scan_range p).0 (pos value) && int_leb (pos value) (S.scan_range p).1)
      then true
      else contains p (codes "/") && on_step (S.scan_step p) (value - min)

  unfoldable pub match_parts : List (List ℕ) → ℕ → ℕ → Bool
  match_parts [] value min = false
  match_parts (p ∷ ps) value min =
      let rest = match_parts ps value min in if match_part p value min then true else rest

  unfoldable pub match_field : List ℕ → ℕ → ℕ → Bool
  match_field pattern value min =
      if is_any pattern then true else match_parts (S.comma_parts pattern) value min

  module _ (C : Calendar) where
    unfoldable pub match_cron : Fields → ℕ → Bool
    match_cron f t =
        let dom = match_field f.dom (C.day_of t) 1 in
        let month = match_field f.month (C.month_of t) 1 in
        let dow = match_field f.dow (C.weekday_of t) 0 in
        let day_match = if is_any f.dom || is_any f.dow then dom && dow else dom || dow in
        match_field f.minute (C.minute_of t) 0
        && (match_field f.hour (C.hour_of t) 0 && (month && day_match))

    abbrev pub one_minute : ℕ
    one_minute = 60_000_000_000

    -- The loop, with `n` rounds left.
    unfoldable pub search_minute : ℕ → Fields → ℕ → ℕ → ℕ
    search_minute zero f next fallback = fallback
    search_minute (suc n) f next fallback =
        let rest = search_minute n f (next + one_minute) fallback in
        if match_cron f (next + one_minute) then next + one_minute else rest

    -- The function that `parseCron` returns for five fields.
    unfoldable pub next_run : Fields → ℕ → ℕ
    next_run f t = search_minute 525600 f (t - t % one_minute) (t + 1440 * one_minute)
