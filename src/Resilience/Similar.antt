-- ===== src/Resilience/Similar.antt =====
-- internal/resilience/circuitbreaker.go: which fields of a breaker a caller can tell apart.
use omegacrawl.Base.{◌≡◌, ℕ, arith}
use omegacrawl.Resilience.Breaker.{
  state_closed, state_half_open, state_open, CircuitBreaker, allow, success, failure, reset,
}

pub record SameConfig (a b : CircuitBreaker) : Type 0 where
  pub failure_threshold : a.failure_threshold ≡ b.failure_threshold
  pub success_threshold : a.success_threshold ≡ b.success_threshold
  pub timeout : a.timeout ≡ b.timeout
  pub max_half_open_probes : a.max_half_open_probes ≡ b.max_half_open_probes

-- The breakers agree on the fields that matter in their state.
pub record Similar (a b : CircuitBreaker) : Type 0 where
  pub config : SameConfig a b
  pub state : a.state ≡ b.state
  pub closed : a.state ≡ state_closed → a.failure_count ≡ b.failure_count
  pub opened : a.state ≡ state_open → a.last_failure ≡ b.last_failure
  pub since : a.state ≡ state_half_open → a.half_open_since ≡ b.half_open_since
  pub probes : a.state ≡ state_half_open → a.half_open_probes ≡ b.half_open_probes
  pub successes : a.state ≡ state_half_open → a.success_count ≡ b.success_count

pub Similar-refl : (a : CircuitBreaker) → Similar a a
Similar-refl a = ground arith

module _ (a b : CircuitBreaker) (s : Similar a b) where
  pub allow-same : (t t' : ℕ) → (allow t t' a).1 ≡ (allow t t' b).1
  unfolding allow
  allow-same t t' = ground arith

  pub allow-Similar : (t t' : ℕ) → Similar (allow t t' a).0 (allow t t' b).0
  unfolding allow
  allow-Similar t t' = ground arith

  pub success-Similar : Similar (success a) (success b)
  unfolding success
  success-Similar = ground arith

  pub failure-Similar : (t : ℕ) → Similar (failure t a) (failure t b)
  unfolding failure
  failure-Similar t = ground arith

  pub reset-Similar : Similar (reset a) (reset b)
  unfolding reset
  reset-Similar = ground arith

-- No method changes the configuration.
module _ (a c : CircuitBreaker) (s : SameConfig a c) where
  pub allow-SameConfig : (t t' : ℕ) → SameConfig (allow t t' a).0 c
  unfolding allow
  allow-SameConfig t t' = ground arith

  pub success-SameConfig : SameConfig (success a) c
  unfolding success
  success-SameConfig = ground arith

  pub failure-SameConfig : (t : ℕ) → SameConfig (failure t a) c
  unfolding failure
  failure-SameConfig t = ground arith

  pub reset-SameConfig : SameConfig (reset a) c
  unfolding reset
  reset-SameConfig = ground arith

  -- An idle breaker is as good as a new one of its configuration.
  pub idle-Similar :
      a.state ≡ state_closed
      → a.failure_count ≡ 0
      → c.state ≡ state_closed
      → c.failure_count ≡ 0
      → Similar a c
  idle-Similar p q p' q' = ground arith
