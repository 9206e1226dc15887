-- ===== src/Resilience/Host.antt =====
-- internal/resilience/circuitbreaker.go: `HostCircuitBreaker`, a breaker for each host in a
-- concurrent map. The map holds pointers to breakers; a method of a host's breaker is the new
-- breaker stored under that host. Calls do not overlap.
use Prim.Native.String.{String}
use omegacrawl.Base.{
  ℕ, Bool, true, false, ◌&&◌, ◌==◌, List, [], ◌∷◌, map, none, some, if◌then◌else◌,
}
use omegacrawl.Sync.Keyed.{KeyedMap}
use omegacrawl.Resilience.Breaker
use omegacrawl.Resilience.Breaker.{
  State, state_closed, state_half_open, state_open, CircuitBreaker, default_config,
  new_circuit_breaker,
}

-- What every new breaker of a host is.
abbrev pub fresh : CircuitBreaker
fresh = new_circuit_breaker (some default_config)

is_closed : State → Bool
is_closed state_closed = true
is_closed _ = false

-- The test of `Cleanup`.
unfoldable pub is_idle : CircuitBreaker → Bool
unfolding is_closed
is_idle cb = is_closed cb.state && cb.failure_count == 0

-- The function that `Cleanup` hands to `Range`: the keys of idle breakers, in order.
unfoldable pub idle_keys : List (String × CircuitBreaker) → List String
idle_keys [] = []
idle_keys ((k, cb) ∷ es) = let rest = idle_keys es in if is_idle cb then k ∷ rest else rest

module _ (D : KeyedMap CircuitBreaker) where
  open D use {Map, get, put, delete, entries}

  -- The second lookup is the check after `createMu` is taken.
  unfoldable pub get_or_create : String → Map → Map × CircuitBreaker
  get_or_create host m = elim (get host m) [
    | some cb ↦ (m, cb)
    | none ↦ elim (get host m) [ some cb ↦ (m, cb) | none ↦ (put host fresh m, fresh) ]
  ]

  unfoldable pub allow : String → ℕ → ℕ → Map → Map × Bool
  allow host t t' m =
      let (m', cb) = get_or_create host m in
      let (cb', done) = Breaker.allow t t' cb in (put host cb' m', done)

  unfoldable pub success : String → Map → Map
  success host m = let (m', cb) = get_or_create host m in put host (Breaker.success cb) m'

  unfoldable pub failure : String → ℕ → Map → Map
  failure host t m = let (m', cb) = get_or_create host m in put host (Breaker.failure t cb) m'

  unfoldable pub state : String → Map → Map × State
  state host m = let (m', cb) = get_or_create host m in (m', cb.state)

  unfoldable pub reset : String → Map → Map
  reset host m = let (m', cb) = get_or_create host m in put host (Breaker.reset cb) m'

  unfoldable pub delete_all : List String → Map → Map
  delete_all [] m = m
  delete_all (k ∷ ks) m = delete_all ks (delete k m)

  unfoldable pub cleanup : Map → Map
  cleanup m = delete_all (idle_keys (entries m)) m

  -- `RangeStates`: the states that the callback is given, in order.
  unfoldable pub range_states : Map → List State
  range_states m = map (λ e. e.1.state) (entries m)
