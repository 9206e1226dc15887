-- ===== src/Resilience/Behaviour.antt =====
-- internal/resilience/circuitbreaker.go: what a caller of one breaker can rely on.
use omegacrawl.Base.{
  ℕ, zero, suc, ◌+◌, ◌≤◌, ◌<◌, ◌≡◌, ◌↔◌, ◌⊎◌, true, false, List, [], ◌∷◌, arith, length, Option,
}
use omegacrawl.Resilience.Breaker.{
  state_closed, state_half_open, state_open, Config, CircuitBreaker, new_circuit_breaker, allow,
  success, failure, reset,
}

-- What holds of a breaker between two calls.
pub record IsSound (cb : CircuitBreaker) : Type 0 where
  pub closed_below :
      cb.state ≡ state_closed → (cb.failure_count < cb.failure_threshold) ⊎ (cb.failure_count ≡ 0)
  pub closed_fresh : cb.state ≡ state_closed → cb.success_count ≡ 0
  pub half_open_below :
      cb.state ≡ state_half_open
      → (cb.success_count < cb.success_threshold) ⊎ (cb.success_count ≡ 0)
  pub half_open_clean : cb.state ≡ state_half_open → cb.failure_count ≡ 0
  pub open_known : cb.state ≡ state_open → cb.success_count ≤ cb.success_threshold

-- One call of a method; `t` and `t'` are the clock readings that it makes.
pub data Call : Type 0 where
  allow_at : ℕ → ℕ → Call
  succeed : Call
  fail_at : ℕ → Call
  clear : Call

unfoldable pub apply : Call → CircuitBreaker → CircuitBreaker
apply (allow_at t t') cb = (allow t t' cb).0
apply succeed cb = success cb
apply (fail_at t) cb = failure t cb
apply clear cb = reset cb

unfoldable pub run : List Call → CircuitBreaker → CircuitBreaker
run [] cb = cb
run (c ∷ cs) cb = run cs (apply c cb)

apply-IsSound : (c : Call) (cb : CircuitBreaker) → IsSound cb → IsSound (apply c cb)
unfolding apply allow success failure reset
apply-IsSound (allow_at t t') cb v = ground arith
apply-IsSound succeed cb v = ground arith
apply-IsSound (fail_at t) cb v = ground arith
apply-IsSound clear cb v = ground arith

new-IsSound : (cfg : Option Config) → IsSound (new_circuit_breaker cfg)
unfolding new_circuit_breaker
new-IsSound cfg = ground arith

run_from-IsSound : (cs : List Call) (cb : CircuitBreaker) → IsSound cb → IsSound (run cs cb)
unfolding run
run_from-IsSound [] cb v = v
run_from-IsSound (c ∷ cs) cb v = run_from-IsSound cs (apply c cb) (apply-IsSound c cb v)

-- Whatever calls are made on a new breaker: while it is closed, fewer failures than the threshold
-- are counted (or none) and no success is; while it is half open, no failure is counted and fewer
-- successes than the threshold are (or none); and no more successes than the threshold are
-- counted while it is open.
pub run-IsSound :
    (cs : List Call) (cfg : Option Config) → IsSound (run cs (new_circuit_breaker cfg))
run-IsSound cs cfg = run_from-IsSound cs (new_circuit_breaker cfg) (new-IsSound cfg)

-- A run of consecutive failures.
unfoldable pub fail_all : List ℕ → CircuitBreaker → CircuitBreaker
fail_all [] cb = cb
fail_all (t ∷ ts) cb = fail_all ts (failure t cb)

fail_all-open :
    (ts : List ℕ) (cb : CircuitBreaker)
    → cb.state ≡ state_open
    → (fail_all ts cb).state ≡ state_open
unfolding fail_all failure
fail_all-open [] cb h = h
fail_all-open (t ∷ ts) cb h = fail_all-open ts (failure t cb) (ground arith)

-- A closed breaker that has counted fewer failures than its threshold is open after a run of
-- further failures exactly when these bring the count to the threshold.
pub fail_all-trips :
    (ts : List ℕ) (cb : CircuitBreaker)
    → cb.state ≡ state_closed
    → cb.failure_count < cb.failure_threshold
    → ((fail_all ts cb).state ≡ state_open) ↔ (cb.failure_threshold ≤ cb.failure_count + length ts)
unfolding fail_all failure
fail_all-trips [] cb h k = ground arith
fail_all-trips (t ∷ ts) cb h k =
    ground (arith, fail_all-trips ts (failure t cb), fail_all-open ts (failure t cb))

-- An open breaker: when more than the timeout has passed since the last failure, the call is
-- admitted and the breaker is half open from then on, with no count and all its probes; otherwise
-- the call is refused and the breaker unchanged.
pub allow-open :
    (t t' : ℕ) (cb : CircuitBreaker)
    → cb.state ≡ state_open
    → ((cb.last_failure + cb.timeout < t)
        × ((allow t t' cb).1 ≡ true)
        × ((allow t t' cb).0.state ≡ state_half_open)
        × ((allow t t' cb).0.half_open_probes ≡ cb.max_half_open_probes)
        × ((allow t t' cb).0.success_count ≡ 0)
        × ((allow t t' cb).0.failure_count ≡ 0)
        × ((allow t t' cb).0.half_open_since ≡ t'))
      ⊎ ((t ≤ cb.last_failure + cb.timeout) × (allow t t' cb ≡ (cb, false)))
unfolding allow
allow-open t t' cb h = ground arith

-- A failure while half open opens the breaker again at once: a call that follows it is admitted
-- exactly when the whole timeout has passed since that failure.
pub failure-half_open :
    (f t t' : ℕ) (cb : CircuitBreaker)
    → cb.state ≡ state_half_open
    → ((failure f cb).state ≡ state_open)
      × (((allow t t' (failure f cb)).1 ≡ true) ↔ (f + cb.timeout < t))
unfolding failure allow
failure-half_open f t t' cb h = ground arith

-- A run of consecutive successes.
unfoldable pub succeed_times : ℕ → CircuitBreaker → CircuitBreaker
succeed_times zero cb = cb
succeed_times (suc n) cb = succeed_times n (success cb)

succeed_times-closed :
    (n : ℕ) (cb : CircuitBreaker)
    → cb.state ≡ state_closed
    → (succeed_times n cb).state ≡ state_closed
unfolding succeed_times success
succeed_times-closed zero cb h = h
succeed_times-closed (suc n) cb h = succeed_times-closed n (success cb) (ground arith)

-- A half open breaker that has counted fewer successes than its threshold is closed after a run
-- of further successes exactly when these bring the count to the threshold.
pub succeed_times-closes :
    (n : ℕ) (cb : CircuitBreaker)
    → cb.state ≡ state_half_open
    → cb.success_count < cb.success_threshold
    → ((succeed_times n cb).state ≡ state_closed) ↔ (cb.success_threshold ≤ cb.success_count + n)
unfolding succeed_times success
succeed_times-closes zero cb h k = ground arith
succeed_times-closes (suc n) cb h k =
    ground (arith, succeed_times-closes n (success cb), succeed_times-closed n (success cb))
