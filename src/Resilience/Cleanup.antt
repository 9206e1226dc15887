-- ===== src/Resilience/Cleanup.antt =====
-- internal/resilience/circuitbreaker.go: what `Cleanup` removes.
use Prim.Native.String.{String}
use text.Mathlib.Text.{◌==◌}
use text.Mathlib.TextEquality.{eq_iff}
use omegacrawl.Base.{
  ◌≡◌, refl, ap, true, List, [], ◌∷◌, Option, none, some, if◌then◌else◌, arith, inl, inr,
  Bool-cases, Option-cases,
}
use omegacrawl.Base.Dict.{member}
use omegacrawl.Sync.Keyed.{KeyedMap, Has}
use omegacrawl.Resilience.Breaker.{CircuitBreaker}
use omegacrawl.Resilience.Host.{fresh, is_idle, idle_keys}
use omegacrawl.Resilience.Host

-- The keys that `Cleanup` collects are those of idle breakers, and all of them.
idle_keys_sound :
    (j : String) (es : List (String × CircuitBreaker))
    → member j (idle_keys es) ≡ true
    → (cb : CircuitBreaker) × Has (j, cb) es × (is_idle cb ≡ true)
unfolding idle_keys member
idle_keys_sound j [] h = cc
idle_keys_sound j ((k, cb) ∷ es) h = elim (Bool-cases (is_idle cb)) [
  | inl i ↦ elim (Bool-cases (k == j)) [
    | inl e ↦ (cb, inl (ap (λ x. (x, cb)) ((eq_iff k j).0 e)), i)
    | inr n ↦ let (cb', at, i') = idle_keys_sound j es (ground arith) in (cb', inr at, i')
  ]
  | inr n ↦ let (cb', at, i') = idle_keys_sound j es (ground arith) in (cb', inr at, i')
]

idle_keys_complete :
    (j : String) (cb : CircuitBreaker) (es : List (String × CircuitBreaker))
    → Has (j, cb) es
    → is_idle cb ≡ true
    → member j (idle_keys es) ≡ true
unfolding idle_keys member
idle_keys_complete j cb [] h i = absurd h
idle_keys_complete j cb ((k, c) ∷ es) (inl e) i =
    let ek : k ≡ j = ap (λ p. p.0) e in
    let ec : c ≡ cb = ap (λ p. p.1) e in ground (arith, eq_iff k j)
idle_keys_complete j cb ((k, c) ∷ es) (inr r) i = ground (arith, idle_keys_complete j cb es r i)

-- What is left of a stored breaker.
abbrev pub unless_idle : Option CircuitBreaker → Option CircuitBreaker
unless_idle none = none
unless_idle (some cb) = if is_idle cb then none else some cb

module _ (D : KeyedMap CircuitBreaker) where
  open D use {Map, IsValid, get, put, delete, entries}

  get-delete_all :
      (j : String) (ks : List String) (m : Map)
      → IsValid m
      → get j (Host.delete_all D ks m) ≡ (if member j ks then none else get j m)
  unfolding Host.delete_all member
  get-delete_all j [] m v = refl
  get-delete_all j (k ∷ ks) m v =
      ground
        (arith, get-delete_all j ks (delete k m) (D.delete-IsValid k m v), D.get-delete k j m v)

  -- On a valid map `Cleanup` removes the breakers that are closed with no failure counted, and no other.
  pub get-cleanup :
      (j : String) (m : Map) → IsValid m → get j (Host.cleanup D m) ≡ unless_idle (get j m)
  unfolding Host.cleanup
  get-cleanup j m v = elim (Bool-cases (member j (idle_keys (entries m)))) [
    | inl e ↦
        let (cb, at, i) = idle_keys_sound j (entries m) e in
        let here : get j m ≡ some cb = (D.Has-entries j cb m v).0 at in
        ground (arith, get-delete_all j (idle_keys (entries m)) m v)
    | inr n ↦ elim (Option-cases (get j m)) [
      | inl e ↦ ground (arith, get-delete_all j (idle_keys (entries m)) m v)
      | inr (cb, e) ↦ ground (
        arith,
        get-delete_all j (idle_keys (entries m)) m v,
        idle_keys_complete j cb (entries m) ((D.Has-entries j cb m v).1 e),
      )
    ]
  ]
