-- ===== src/Ratelimit/Adaptive.antt =====
-- internal/ratelimit/limiter.go: the delay after an observed latency.
use omegacrawl.Base.{ℕ, ◌*◌, ◌/◌, ◌<◌, ◌≤◌, ◌≡◌, ◌⊎◌, some, arith}
use omegacrawl.Ratelimit.{RateLib, RateLimiter, adapted}

module _ (lib : RateLib) where
  -- The delay after an observed latency: with a delay within the limiter's maximum it is, for a high
  -- latency, no shorter than before and within the maximum, and for a low latency no longer than
  -- before and at least the minimum.
  pub adapted_bounds :
      (rl : RateLimiter lib) (delay latency next : ℕ)
      → delay ≤ rl.max_delay
      → adapted lib rl delay latency ≡ some next
      → ((delay * 3 < latency) × (delay ≤ next) × (next ≤ rl.max_delay))
        ⊎ ((latency < delay / 3) × (rl.min_delay ≤ next) × (next ≤ delay))
  unfolding adapted
  adapted_bounds rl delay latency next m e = ground arith
