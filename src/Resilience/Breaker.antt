-- ===== src/Resilience/Breaker.antt =====
-- internal/resilience/circuitbreaker.go: the breaker of one host. A method is one step (the mutex
-- and the atomics make it so while no other goroutine interferes); `t` is the clock that
-- `time.Since` reads and `t'` the one that a following `time.Now` stores. Instants and durations
-- are nanoseconds, the zero `time.Time` is 0. The `int` counters are unbounded numbers; the
-- `int32` of probes left is its bit pattern.
use omegacrawl.Base.{
  ℕ, ◌+◌, ◌*◌, ◌%◌, ◌^◌, Bool, true, false, ltb, leb, if◌then◌else◌, Option, none, some,
}

pub data State : Type 0 where
  state_closed state_half_open state_open : State

pub record Config : Type 0 where
  pub failure_threshold : ℕ
  pub success_threshold : ℕ
  pub timeout : ℕ
  pub half_open_max_probes : ℕ

abbrev pub default_config : Config
default_config = record {
  failure_threshold = 5;
  success_threshold = 2;
  timeout = 60 * 1_000_000_000;
  half_open_max_probes = 1;
}

pub record CircuitBreaker : Type 0 where
  pub state : State
  pub failure_count : ℕ
  pub success_count : ℕ
  pub failure_threshold : ℕ
  pub success_threshold : ℕ
  pub timeout : ℕ
  pub last_failure : ℕ
  pub half_open_since : ℕ
  pub half_open_probes : ℕ  -- int32
  pub max_half_open_probes : ℕ  -- int32

-- `int32(n)` as a bit pattern.
abbrev pub int32 : ℕ → ℕ
int32 n = n % 2 ^ 32

-- `atomic.AddInt32(&p, -1)`.
abbrev pub decrement : ℕ → ℕ
decrement p = (p + 4294967295) % 2 ^ 32

-- `p >= 0` for an `int32`: its sign bit is clear.
abbrev pub nonnegative : ℕ → Bool
nonnegative p = ltb p 2147483648

-- `NewCircuitBreaker` for a configuration that is not nil.
new_from : Config → CircuitBreaker
new_from cfg = record {
  state = state_closed;
  failure_count = 0;
  success_count = 0;
  failure_threshold = cfg.failure_threshold;
  success_threshold = cfg.success_threshold;
  timeout = cfg.timeout;
  last_failure = 0;
  half_open_since = 0;
  half_open_probes = int32 cfg.half_open_max_probes;
  max_half_open_probes = int32 cfg.half_open_max_probes;
}

unfoldable pub new_circuit_breaker : Option Config → CircuitBreaker
unfolding new_from
new_circuit_breaker none = new_from default_config
new_circuit_breaker (some cfg) = new_from cfg

-- `time.Since(since) > timeout` at the instant `t`.
abbrev pub elapsed_over : ℕ → ℕ → ℕ → Bool
elapsed_over t since timeout = ltb (since + timeout) t

allow_in : State → ℕ → ℕ → CircuitBreaker → CircuitBreaker × Bool
allow_in state_closed t t' cb = (cb, true)
allow_in state_open t t' cb =
    if elapsed_over t cb.last_failure cb.timeout
    then (
      record cb {
        state = state_half_open;
        success_count = 0;
        failure_count = 0;
        half_open_since = t';
        half_open_probes = cb.max_half_open_probes;
      },
      true,
    )
    else (cb, false)
allow_in state_half_open t t' cb =
    if elapsed_over t cb.half_open_since cb.timeout
    then (record cb { state = state_open; last_failure = t' }, false)
    else (
      record cb { half_open_probes = decrement cb.half_open_probes },
      nonnegative (decrement cb.half_open_probes),
    )

unfoldable pub allow : ℕ → ℕ → CircuitBreaker → CircuitBreaker × Bool
unfolding allow_in
allow t t' cb = allow_in cb.state t t' cb

success_in : State → CircuitBreaker → CircuitBreaker
success_in state_half_open cb =
    let counted = record cb { success_count = cb.success_count + 1 } in
    if leb counted.success_threshold counted.success_count
    then record counted {
      state = state_closed;
      failure_count = 0;
      success_count = 0;
      half_open_probes = cb.max_half_open_probes;
    }
    else record counted { half_open_probes = cb.max_half_open_probes }
success_in state_closed cb = record cb { failure_count = 0 }
success_in state_open cb = cb

unfoldable pub success : CircuitBreaker → CircuitBreaker
unfolding success_in
success cb = success_in cb.state cb

-- The `switch` of `Failure`, after the count and the instant are stored.
failure_in : State → CircuitBreaker → CircuitBreaker
failure_in state_half_open cb = record cb { state = state_open; success_count = 0 }
failure_in state_closed cb =
    if leb cb.failure_threshold cb.failure_count then record cb { state = state_open } else cb
failure_in state_open cb =
    if leb cb.failure_threshold cb.failure_count then record cb { state = state_open } else cb

unfoldable pub failure : ℕ → CircuitBreaker → CircuitBreaker
unfolding failure_in
failure t cb =
    failure_in cb.state (record cb { failure_count = cb.failure_count + 1; last_failure = t })

unfoldable pub reset : CircuitBreaker → CircuitBreaker
reset cb = record cb {
  state = state_closed;
  failure_count = 0;
  success_count = 0;
  last_failure = 0;
}
