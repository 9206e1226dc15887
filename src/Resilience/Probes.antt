-- ===== src/Resilience/Probes.antt =====
-- internal/resilience/circuitbreaker.go: how many calls a half open breaker admits.
use omegacrawl.Base.{
  ℕ, ◌+◌, ◌-◌, ◌≤◌, ◌<◌, ◌≡◌, refl, List, [], ◌∷◌, arith, length, All, if◌then◌else◌,
}
use Prim.Native.Nat.{min}
use omegacrawl.Resilience.Breaker.{state_half_open, CircuitBreaker, allow}

-- The number of calls of `Allow` at the instants `ts` that are admitted.
unfoldable pub admitted : List ℕ → CircuitBreaker → ℕ
admitted [] cb = 0
admitted (t ∷ ts) cb = let (cb', done) = allow t t cb in (if done then 1 else 0) + admitted ts cb'

-- Every instant falls within the timeout of the half open breaker.
abbrev pub Within : CircuitBreaker → List ℕ → Type 0
Within cb ts = All (λ t. t ≤ cb.half_open_since + cb.timeout) ts

-- Once the probes are used up, the count below zero wraps only after 2³¹ more calls.
admitted-none :
    (ts : List ℕ) (cb : CircuitBreaker)
    → cb.state ≡ state_half_open
    → Within cb ts
    → 2147483648 + length ts ≤ cb.half_open_probes
    → cb.half_open_probes < 4294967296
    → admitted ts cb ≡ 0
unfolding admitted allow
admitted-none [] cb h w lo hi = refl
admitted-none (t ∷ ts) cb h w lo hi =
    ground (arith, admitted-none ts (record cb { half_open_probes = cb.half_open_probes - 1 }))

admitted-spent :
    (ts : List ℕ) (cb : CircuitBreaker)
    → cb.state ≡ state_half_open
    → Within cb ts
    → length ts ≤ 2147483648
    → cb.half_open_probes ≡ 0
    → admitted ts cb ≡ 0
unfolding admitted allow
admitted-spent [] cb h w k z = refl
admitted-spent (t ∷ ts) cb h w k z =
    ground (arith, admitted-none ts (record cb { half_open_probes = 4294967295 }))

-- Of at most 2³¹ calls to a half open breaker within its timeout, with no other call between
-- them, exactly as many are admitted as it has probes left (all, if they are fewer).
pub admitted-probes :
    (ts : List ℕ) (cb : CircuitBreaker)
    → cb.state ≡ state_half_open
    → Within cb ts
    → length ts ≤ 2147483648
    → cb.half_open_probes < 2147483648
    → admitted ts cb ≡ min (length ts) cb.half_open_probes
unfolding admitted allow
admitted-probes [] cb h w k p = omega arith
admitted-probes (t ∷ ts) cb h w k p = ground (
  arith,
  admitted-spent (t ∷ ts) cb,
  admitted-probes ts (record cb { half_open_probes = cb.half_open_probes - 1 }),
)
