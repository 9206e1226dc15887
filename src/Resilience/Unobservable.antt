-- ===== src/Resilience/Unobservable.antt =====
-- internal/resilience/circuitbreaker.go: no sequence of later calls can tell whether `Cleanup` ran.
use Prim.Native.String.{String}
use text.Mathlib.Text.{◌==◌}
use omegacrawl.Base.{
  ◌≡◌, refl, true, List, [], ◌∷◌, Option, none, some, arith, inl, inr, Bool-cases,
}
use omegacrawl.Sync.Keyed.{KeyedMap}
use omegacrawl.Resilience.Breaker.{state_closed, CircuitBreaker, new_circuit_breaker}
use omegacrawl.Resilience.Similar.{SameConfig, Similar, Similar-refl}
use omegacrawl.Resilience.Host.{fresh, is_idle}
use omegacrawl.Resilience.Host
use omegacrawl.Resilience.Cleanup.{get-cleanup, unless_idle}
use omegacrawl.Resilience.Calls.{
  HostCall, Reply, host_of, act, answer, act-Similar, act-SameConfig, answer-same,
}
use omegacrawl.Resilience.Calls

idle_parts :
    (cb : CircuitBreaker) → is_idle cb ≡ true → (cb.state ≡ state_closed) × (cb.failure_count ≡ 0)
unfolding is_idle
idle_parts cb h = ground arith

fresh-SameConfig : SameConfig fresh fresh
fresh-SameConfig = ground arith

fresh_idle : (fresh.state ≡ state_closed) × (fresh.failure_count ≡ 0)
unfolding new_circuit_breaker
fresh_idle = (refl, refl)

module _ (D : KeyedMap CircuitBreaker) where
  open D use {Map, IsValid, get, put, delete}

  abbrev pub Configured : Map → Type 0
  Configured m = (h : String) → SameConfig (Calls.breaker_of D h m) fresh

  abbrev pub Agree : Map → Map → Type 0
  Agree m n = (h : String) → Similar (Calls.breaker_of D h m) (Calls.breaker_of D h n)

  -- The maps that calls and cleanups lead to from a map that holds no breaker.
  pub data Reached : Map → Type 0 where
    start : {m : Map} → IsValid m → ((h : String) → get h m ≡ none) → Reached m
    called : {m : Map} → Reached m → (c : HostCall) → Reached (Calls.serve D c m).0
    cleaned : {m : Map} → Reached m → Reached (Host.cleanup D m)

  delete_all-IsValid : (ks : List String) (m : Map) → IsValid m → IsValid (Host.delete_all D ks m)
  unfolding Host.delete_all
  delete_all-IsValid [] m v = v
  delete_all-IsValid (k ∷ ks) m v = delete_all-IsValid ks (delete k m) (D.delete-IsValid k m v)

  cleanup-IsValid : (m : Map) → IsValid m → IsValid (Host.cleanup D m)
  unfolding Host.cleanup
  cleanup-IsValid m v = delete_all-IsValid _ m v

  serve-IsValid : (c : HostCall) (m : Map) → IsValid m → IsValid (Calls.serve D c m).0
  unfolding Calls.serve Host.allow Host.success Host.failure Host.state Host.reset
  serve-IsValid (Calls.allow_host h t t') m v =
      D.put-IsValid h _ _ (Calls.get_or_create-IsValid D h m v)
  serve-IsValid (Calls.success_host h) m v =
      D.put-IsValid h _ _ (Calls.get_or_create-IsValid D h m v)
  serve-IsValid (Calls.failure_host h t) m v =
      D.put-IsValid h _ _ (Calls.get_or_create-IsValid D h m v)
  serve-IsValid (Calls.state_host h) m v = Calls.get_or_create-IsValid D h m v
  serve-IsValid (Calls.reset_host h) m v = D.put-IsValid h _ _ (Calls.get_or_create-IsValid D h m v)

  serve-Configured :
      (c : HostCall) (m : Map) → IsValid m → Configured m → Configured (Calls.serve D c m).0
  serve-Configured c m v g j = elim (Bool-cases (host_of c == j)) [
    | inl e ↦ rw ((Calls.serve_lem D c j m v).0, e) (act-SameConfig c _ fresh (g (host_of c)))
    | inr n ↦ rw ((Calls.serve_lem D c j m v).0, n) (g j)
  ]

  cleanup-Agree : (m : Map) → IsValid m → Configured m → Agree (Host.cleanup D m) m
  cleanup-Agree m v g j = rw (Calls.breaker_of, get-cleanup D j m v) (left (get j m) (g j))
    where
      left :
          (o : Option CircuitBreaker)
          → SameConfig (Calls.or_fresh o) fresh
          → Similar (Calls.or_fresh (unless_idle o)) (Calls.or_fresh o)
      left none s = Similar-refl fresh
      left (some cb) s = elim (Bool-cases (is_idle cb)) [
        | inl i ↦ rw i (ground (arith, idle_parts cb i, fresh_idle))
        | inr i ↦ rw i (Similar-refl cb)
      ]

  serve-Agree :
      (c : HostCall) (m n : Map)
      → IsValid m
      → IsValid n
      → Agree m n
      → Agree (Calls.serve D c m).0 (Calls.serve D c n).0
  serve-Agree c m n v w a j = elim (Bool-cases (host_of c == j)) [
    | inl e ↦
        rw ((Calls.serve_lem D c j m v).0, (Calls.serve_lem D c j n w).0, e)
          (act-Similar c _ _ (a (host_of c)))
    | inr e ↦ rw ((Calls.serve_lem D c j m v).0, (Calls.serve_lem D c j n w).0, e) (a j)
  ]

  serve_all-same :
      (cs : List HostCall) (m n : Map)
      → IsValid m
      → IsValid n
      → Agree m n
      → Calls.serve_all D cs m ≡ Calls.serve_all D cs n
  unfolding Calls.serve_all
  serve_all-same [] m n v w a = refl
  serve_all-same (c ∷ cs) m n v w a = cc (
    (Calls.serve_lem D c (host_of c) m v).1,
    (Calls.serve_lem D c (host_of c) n w).1,
    answer-same c _ _ (a (host_of c)),
    serve_all-same cs (Calls.serve D c m).0 (Calls.serve D c n).0 (serve-IsValid c m v)
        (serve-IsValid c n w) (serve-Agree c m n v w a),
  )

  cleanup-Configured : (m : Map) → IsValid m → Configured m → Configured (Host.cleanup D m)
  cleanup-Configured m v g j =
      let s = cleanup-Agree m v g j in let k = g j in ground (arith, s.config)

  Reached-IsValid : {m : Map} → Reached m → IsValid m × Configured m
  Reached-IsValid (start v e) = (v, λ h. rw (Calls.breaker_of, e h) fresh-SameConfig)
  Reached-IsValid (called {m} r c) =
      let (v, g) = Reached-IsValid r in (serve-IsValid c m v, serve-Configured c m v g)
  Reached-IsValid (cleaned {m} r) =
      let (v, g) = Reached-IsValid r in (cleanup-IsValid m v, cleanup-Configured m v g)

  -- After any calls and cleanups that begin with no breaker, one more cleanup changes none of the
  -- replies that later calls get.
  pub cleanup_unobservable :
      {m : Map}
      → Reached m
      → (cs : List HostCall) → Calls.serve_all D cs (Host.cleanup D m) ≡ Calls.serve_all D cs m
  cleanup_unobservable {m} r cs =
      let (v, g) = Reached-IsValid r in
      serve_all-same cs (Host.cleanup D m) m (cleanup-IsValid m v) v (cleanup-Agree m v g)
