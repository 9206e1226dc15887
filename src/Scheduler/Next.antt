-- ===== src/Scheduler/Next.antt =====
-- internal/scheduler/scheduler.go: the next run is the first minute that matches.
use omegacrawl.Base.{
  ℕ, zero, suc, ◌+◌, ◌-◌, ◌*◌, ◌%◌, ◌<◌, ◌≡◌, refl, sym, ap, ◌∙◌, ◌⊎◌, inl, inr, true, false, arith,
  Bool-cases,
}
use omegacrawl.Scheduler.Cron.{Scanner, Calendar, Fields, match_cron, search_minute, next_run}

module _ (S : Scanner) (C : Calendar) where
  -- The minute after `k` others that follow an instant.
  abbrev pub minute_after : ℕ → ℕ → ℕ
  minute_after next k = next + suc k * 60_000_000_000

  search_minute_lem :
      (n : ℕ) (f : Fields) (next fallback : ℕ)
      → ((k : ℕ) × (k < n)
          × (search_minute S C n f next fallback ≡ minute_after next k)
          × (match_cron S C f (minute_after next k) ≡ true)
          × ((j : ℕ) → j < k → match_cron S C f (minute_after next j) ≡ false))
        ⊎ ((search_minute S C n f next fallback ≡ fallback)
            × ((j : ℕ) → j < n → match_cron S C f (minute_after next j) ≡ false))
  unfolding search_minute
  search_minute_lem zero f next fallback = inr (refl, λ j h. absurd (omega arith))
  search_minute_lem (suc n) f next fallback =
      let e : minute_after next 0 ≡ next + 60_000_000_000 = omega arith in
      let shift : (k : ℕ) → minute_after (next + 60_000_000_000) k ≡ minute_after next (suc k) =
        λ k. omega arith in
      elim (Bool-cases (match_cron S C f (next + 60_000_000_000))) [
        | inl m ↦
            inl (0, omega arith, (let m' = m in ground arith), rw e m, λ j h. absurd (omega arith))
        | inr m ↦ elim (search_minute_lem n f (next + 60_000_000_000) fallback) [
          | inl (k, l, p, q, r) ↦ inl (
            suc k,
            omega arith,
            (let p' = p ∙ shift k in ground (arith, p')),
            ap (match_cron S C f) (sym (shift k)) ∙ q,
            earlier f next k m r,
          )
          | inr (p, r) ↦ inr ((let p' = p in ground arith), earlier f next n m r)
        ]
      ]
    where
      earlier :
          (f : Fields) (next k : ℕ)
          → match_cron S C f (next + 60_000_000_000) ≡ false
          → ((j : ℕ) → j < k → match_cron S C f (minute_after (next + 60_000_000_000) j) ≡ false)
          → (j : ℕ) → j < suc k
          → match_cron S C f (minute_after next j) ≡ false
      earlier f next k m r zero h =
          let e : minute_after next 0 ≡ next + 60_000_000_000 = omega arith in rw e m
      earlier f next k m r (suc j) h =
          let e : minute_after (next + 60_000_000_000) j ≡ minute_after next (suc j) =
            omega arith in
          rw e at (r j (omega arith))

  -- The next run after an instant is the first of the 525600 minutes after it that matches the
  -- fields; where none does, it is a day later.
  pub next_run_lem :
      (f : Fields) (t : ℕ)
      → ((k : ℕ) × (k < 525600)
          × (next_run S C f t ≡ minute_after (t - t % 60_000_000_000) k)
          × (match_cron S C f (minute_after (t - t % 60_000_000_000) k) ≡ true)
          × ((j : ℕ) → j < k → match_cron S C f (minute_after (t - t % 60_000_000_000) j) ≡ false))
        ⊎ ((next_run S C f t ≡ t + 1440 * 60_000_000_000)
            × ((j : ℕ)
                → j < 525600
                → match_cron S C f (minute_after (t - t % 60_000_000_000) j) ≡ false))
  unfolding next_run
  next_run_lem f t = search_minute_lem 525600 f (t - t % 60_000_000_000) (t + 1440 * 60_000_000_000)
