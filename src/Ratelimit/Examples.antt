-- ===== src/Ratelimit/Examples.antt =====
-- The rate limiter at concrete hosts: a limiter is its rate, and a rate its delay.
use omegacrawl.Base.{ℕ, ◌+◌, ◌*◌, ◌/◌, ◌<◌, ◌≤◌, ◌≡◌, ◌⊎◌, refl, ◌==◌, some, arith}
use omegacrawl.Base.Int.{pos}
use omegacrawl.Base.Bytes.{lookup}
use omegacrawl.Errors.Classify.{codes}
use omegacrawl.Errors.Contains.{bytes_equal}
use omegacrawl.Ratelimit.{
  RateLib, RateLimiter, new_rate_limiter, delay_or_default, get, adapted, observe_latency, cleanup,
  len, second,
}
use omegacrawl.Ratelimit.Adaptive.{adapted_bounds}

abbrev lib : RateLib
lib = record {
  Rate = ℕ;
  Limiter = ℕ;
  every = λ delay. delay;
  same_rate = λ a b. a == b;
  new_limiter = λ rate burst. rate;
  limit = λ l. l;
  set_limit = λ l rate. rate;
  delay_of = λ rate. rate;
  blend = λ last latency. (7 * last + 3 * latency) / 10;
}

abbrev limiter : RateLimiter lib
limiter = new_rate_limiter lib 0 (1 * second) 0

-- One request, and two high latencies: the delay is doubled, until the next request.
abbrev observed : RateLimiter lib
observed =
    observe_latency lib
      (observe_latency lib (get lib (λ rl. rl) limiter 1 (codes "h") (pos 0)).0 2 (codes "h")
        (9 * second))
      3 (codes "h") (9 * second)

doubled_test : adapted lib limiter (1 * second) (9 * second) ≡ some (2 * second)
unfolding adapted new_rate_limiter
doubled_test = refl

-- A delay above the maximum is shortened by a high latency.
shortened_test : adapted lib limiter (60 * second) (200 * second) ≡ some (30 * second)
unfolding adapted new_rate_limiter
shortened_test = refl

cleanup_test : len lib (cleanup lib observed (700 * second)) ≡ 0
unfolding cleanup len observe_latency get new_rate_limiter bytes_equal
cleanup_test = refl

adapted_bounds_example :
    (((1 * second) * 3 < 9 * second) × (1 * second ≤ 2 * second) × (2 * second ≤ limiter.max_delay))
    ⊎ ((9 * second < (1 * second) / 3)
        × (limiter.min_delay ≤ 2 * second)
        × (2 * second ≤ 1 * second))
unfolding adapted new_rate_limiter
adapted_bounds_example =
    adapted_bounds lib limiter (1 * second) (9 * second) (2 * second) (omega arith) refl

-- A host whose limiter another goroutine makes between the two lookups keeps that limiter's rate.
overlapping_test :
    (get lib
      (λ rl. (get lib (λ others. others) rl 1 (codes "h") (pos 7)).0)
      limiter
      2
      (codes "h")
      (pos 9)).1
    ≡ 7
unfolding get new_rate_limiter bytes_equal delay_or_default lookup
overlapping_test = refl
