-- ===== src/Resilience/Calls.antt =====
-- internal/resilience/circuitbreaker.go: the calls on hosts against their specification, an
-- independent breaker for each host, and why `Cleanup` is not observable.
use Prim.Native.String.{String}
use text.Mathlib.Text.{◌==◌}
use text.Mathlib.TextEquality.{eq_iff}
use omegacrawl.Base.{
  ℕ, ◌≡◌, refl, ap, Bool, List, [], ◌∷◌, Option, none, some, if◌then◌else◌, arith, inl, inr,
  Option-cases, ap,
}
use omegacrawl.Sync.Keyed.{KeyedMap}
use omegacrawl.Resilience.Breaker.{
  State, state_closed, CircuitBreaker, new_circuit_breaker, default_config,
}
use omegacrawl.Resilience.Breaker
use omegacrawl.Resilience.Similar.{
  SameConfig, Similar, allow-same, allow-Similar, success-Similar, failure-Similar, reset-Similar,
  allow-SameConfig, success-SameConfig, failure-SameConfig, reset-SameConfig,
}
use omegacrawl.Resilience.Host.{fresh, is_idle}
use omegacrawl.Resilience.Host

-- A call on the breaker of a host, with the clock readings that it makes.
pub data HostCall : Type 0 where
  allow_host : String → ℕ → ℕ → HostCall
  success_host : String → HostCall
  failure_host : String → ℕ → HostCall
  state_host : String → HostCall
  reset_host : String → HostCall

-- What the caller is told.
pub data Reply : Type 0 where
  permitted : Bool → Reply
  in_state : State → Reply
  nothing : Reply

-- The specification of a call: whose breaker it is about, what becomes of it, and the reply.
abbrev pub host_of : HostCall → String
host_of (allow_host h t t') = h
host_of (success_host h) = h
host_of (failure_host h t) = h
host_of (state_host h) = h
host_of (reset_host h) = h

unfoldable pub act : HostCall → CircuitBreaker → CircuitBreaker
act (allow_host h t t') cb = (Breaker.allow t t' cb).0
act (success_host h) cb = Breaker.success cb
act (failure_host h t) cb = Breaker.failure t cb
act (state_host h) cb = cb
act (reset_host h) cb = Breaker.reset cb

unfoldable pub answer : HostCall → CircuitBreaker → Reply
answer (allow_host h t t') cb = permitted (Breaker.allow t t' cb).1
answer (state_host h) cb = in_state cb.state
answer (success_host h) cb = nothing
answer (failure_host h t) cb = nothing
answer (reset_host h) cb = nothing

pub act-Similar : (c : HostCall) (a b : CircuitBreaker) → Similar a b → Similar (act c a) (act c b)
unfolding act
act-Similar (allow_host h t t') a b s = allow-Similar a b s t t'
act-Similar (success_host h) a b s = success-Similar a b s
act-Similar (failure_host h t) a b s = failure-Similar a b s t
act-Similar (state_host h) a b s = s
act-Similar (reset_host h) a b s = reset-Similar a b s

pub act-SameConfig : (c : HostCall) (a b : CircuitBreaker) → SameConfig a b → SameConfig (act c a) b
unfolding act
act-SameConfig (allow_host h t t') a b s = allow-SameConfig a b s t t'
act-SameConfig (success_host h) a b s = success-SameConfig a b s
act-SameConfig (failure_host h t) a b s = failure-SameConfig a b s t
act-SameConfig (state_host h) a b s = s
act-SameConfig (reset_host h) a b s = reset-SameConfig a b s

pub answer-same : (c : HostCall) (a b : CircuitBreaker) → Similar a b → answer c a ≡ answer c b
unfolding answer
answer-same (allow_host h t t') a b s = ap permitted (allow-same a b s t t')
answer-same (success_host h) a b s = refl
answer-same (failure_host h t) a b s = refl
answer-same (state_host h) a b s = ap in_state s.state
answer-same (reset_host h) a b s = refl

abbrev pub or_fresh : Option CircuitBreaker → CircuitBreaker
or_fresh none = fresh
or_fresh (some cb) = cb

module _ (D : KeyedMap CircuitBreaker) where
  open D use {Map, IsValid, get, put, delete, entries}

  unfoldable pub serve : HostCall → Map → Map × Reply
  serve (allow_host h t t') m = let (m', b) = Host.allow D h t t' m in (m', permitted b)
  serve (success_host h) m = (Host.success D h m, nothing)
  serve (failure_host h t) m = (Host.failure D h t m, nothing)
  serve (state_host h) m = let (m', s) = Host.state D h m in (m', in_state s)
  serve (reset_host h) m = (Host.reset D h m, nothing)

  unfoldable pub serve_all : List HostCall → Map → List Reply
  serve_all [] m = []
  serve_all (c ∷ cs) m = let (m', r) = serve c m in r ∷ serve_all cs m'

  -- The breaker that the next call for the host meets.
  abbrev pub breaker_of : String → Map → CircuitBreaker
  breaker_of h m = or_fresh (get h m)

  breaker_of-put :
      (h j : String) (cb : CircuitBreaker) (m : Map)
      → IsValid m
      → breaker_of j (put h cb m) ≡ (if h == j then cb else breaker_of j m)
  breaker_of-put h j cb m v = ground (arith, D.get-put h j cb m v)

  -- `getOrCreate` returns the breaker of the host, and no breaker changes.
  get_or_create-breaker : (h : String) (m : Map) → (Host.get_or_create D h m).1 ≡ breaker_of h m
  unfolding Host.get_or_create
  get_or_create-breaker h m = ground arith

  breaker_of-get_or_create :
      (h j : String) (m : Map)
      → IsValid m
      → breaker_of j (Host.get_or_create D h m).0 ≡ breaker_of j m
  unfolding Host.get_or_create
  breaker_of-get_or_create h j m v = ground (arith, breaker_of-put h j fresh m v, eq_iff h j)

  pub get_or_create-IsValid :
      (h : String) (m : Map) → IsValid m → IsValid (Host.get_or_create D h m).0
  unfolding Host.get_or_create
  get_or_create-IsValid h m v = elim (Option-cases (get h m)) [
    | inl e ↦ rw (e, Host.get_or_create, e) (D.put-IsValid h fresh m v)
    | inr (cb, e) ↦ rw (e, Host.get_or_create) v
  ]

  breaker_of-update :
      (h j : String) (f : CircuitBreaker → CircuitBreaker) (m : Map)
      → IsValid m
      → breaker_of j (put h (f (Host.get_or_create D h m).1) (Host.get_or_create D h m).0)
        ≡ (if h == j then f (breaker_of h m) else breaker_of j m)
  breaker_of-update h j f m v = ground (
    arith,
    get_or_create-breaker h m,
    breaker_of-put h j (f (Host.get_or_create D h m).1) (Host.get_or_create D h m).0
        (get_or_create-IsValid h m v),
    breaker_of-get_or_create h j m v,
  )

  pub serve_lem :
      (c : HostCall) (j : String) (m : Map)
      → IsValid m
      → (breaker_of j (serve c m).0
          ≡ (if host_of c == j then act c (breaker_of (host_of c) m) else breaker_of j m))
        × ((serve c m).1 ≡ answer c (breaker_of (host_of c) m))
  unfolding serve act answer Host.allow Host.success Host.failure Host.state Host.reset
  serve_lem (allow_host h t t') j m v = (
    breaker_of-update h j (λ cb. (Breaker.allow t t' cb).0) m v,
    ap (λ cb. permitted (Breaker.allow t t' cb).1) (get_or_create-breaker h m),
  )
  serve_lem (success_host h) j m v = (breaker_of-update h j Breaker.success m v, refl)
  serve_lem (failure_host h t) j m v = (breaker_of-update h j (Breaker.failure t) m v, refl)
  serve_lem (state_host h) j m v = (
    ground (arith, breaker_of-get_or_create h j m v, eq_iff h j),
    ap (λ cb. in_state cb.state) (get_or_create-breaker h m),
  )
  serve_lem (reset_host h) j m v = (breaker_of-update h j Breaker.reset m v, refl)
