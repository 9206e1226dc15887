-- ===== src/Util/Lru/Kept.antt =====
-- internal/util/lru_cache.go: how long a value stays in a cache that is used.
use mathlib.Core.Path.{subst}
use text.Mathlib.Text.{◌==◌}
use text.Mathlib.TextEquality.{eq_iff}
use omegacrawl.Base.{
  ℕ, zero, suc, ◌+◌, ◌<◌, ◌≡◌, ◌≢◌, refl, ap, ◌∙◌, false, List, [], ◌∷◌, some, String, All, arith,
  length, take, inl, inr, ◌⊎◌, Bool-cases, Option-cases,
}
use omegacrawl.Base.Dict
use omegacrawl.Base.Int.{ℤ, or_default}
use omegacrawl.Util.Lru.{Lru, new_lru}
use omegacrawl.Util.Lru.Spec.{
  Call, gets, puts, puts_if_absent, adds_if_absent, asks, counts, clears, Answer, found, call,
  calls, promote, spec, specs,
}
use omegacrawl.Util.Lru.History.{agreement, calls_agree, new_lru-IsCacheOf}

module _ {V : Type 0} (k : String) where
  -- The call is about another key, and does not clear the cache.
  abbrev pub Spares : Call V → Type 0
  Spares (gets j) = j ≢ k
  Spares (puts j w) = j ≢ k
  Spares (puts_if_absent j w) = j ≢ k
  Spares (adds_if_absent j w) = j ≢ k
  Spares (asks j) = Unit
  Spares counts = Unit
  Spares clears = ⊥

  module _ (v : V) where
    -- The entry of the key is among the first entries, `n` others before it at most.
    abbrev Near : ℕ → List (String × V) → Type 0
    Near n [] = ⊥
    Near zero ((j, w) ∷ r) = (j ≡ k) × (w ≡ v)
    Near (suc n) ((j, w) ∷ r) = ((j ≡ k) × (w ≡ v)) ⊎ ((j ≢ k) × Near n r)

    Near-lookup : (n : ℕ) (r : List (String × V)) → Near n r → Dict.lookup k r ≡ some v
    unfolding Dict.lookup
    Near-lookup n [] h = absurd h
    Near-lookup zero ((j, w) ∷ r) (p, q) = ground (arith, eq_iff j k)
    Near-lookup (suc n) ((j, w) ∷ r) (inl (p, q)) = ground (arith, eq_iff j k)
    Near-lookup (suc n) ((j, w) ∷ r) (inr (m, h)) = ground (arith, eq_iff j k, Near-lookup n r h)

    Near-mono : (n : ℕ) (r : List (String × V)) → Near n r → Near (suc n) r
    Near-mono n [] h = absurd h
    Near-mono zero ((j, w) ∷ r) h = inl h
    Near-mono (suc n) ((j, w) ∷ r) (inl h) = inl h
    Near-mono (suc n) ((j, w) ∷ r) (inr (m, h)) = inr (m, Near-mono n r h)

    Near-take : (n limit : ℕ) (r : List (String × V)) → n < limit → Near n r → Near n (take limit r)
    Near-take n limit [] lt h = absurd h
    Near-take n zero (e ∷ r) lt h = absurd (omega (arith, lt))
    Near-take zero (suc l) ((j, w) ∷ r) lt h = h
    Near-take (suc n) (suc l) ((j, w) ∷ r) lt (inl h) = inl h
    Near-take (suc n) (suc l) ((j, w) ∷ r) lt (inr (m, h)) =
        inr (m, Near-take n l r (omega (arith, lt)) h)

    Near-delete :
        (i : String) (n : ℕ) (r : List (String × V)) → i ≢ k → Near n r → Near n (Dict.delete i r)
    unfolding Dict.delete
    Near-delete i n [] ne h = absurd h
    Near-delete i zero ((j, w) ∷ r) ne (p, q) =
        let e : (j == i) ≡ false = ground (arith, eq_iff j i) in rw e (p, q)
    Near-delete i (suc n) ((j, w) ∷ r) ne (inl (p, q)) =
        let e : (j == i) ≡ false = ground (arith, eq_iff j i) in rw e (inl (p, q))
    Near-delete i (suc n) ((j, w) ∷ r) ne (inr (m, h)) = elim (Bool-cases (j == i)) [
      | inl e ↦ rw e (Near-mono n (Dict.delete i r) (Near-delete i n r ne h))
      | inr e ↦ rw e (inr (m, Near-delete i n r ne h))
    ]

    -- A call about another key puts at most one more entry before it.
    Near-spec :
        (limit n : ℕ) (x : Call V) (r : List (String × V))
        → suc n < limit
        → Spares x
        → Near n r
        → Near (suc n) (spec limit x r).0
    unfolding spec promote
    Near-spec limit n (gets j) r lt ne h = elim (Option-cases (Dict.lookup j r)) [
      | inl e ↦ rw (spec, e) (Near-mono n r h)
      | inr (w, e) ↦ rw (spec, e) (inr (ne, Near-delete j n r ne h))
    ]
    Near-spec limit n (puts j w) r lt ne h =
        Near-take (suc n) limit (promote j w r) lt (inr (ne, Near-delete j n r ne h))
    Near-spec limit n (puts_if_absent j w) r lt ne h = elim (Option-cases (Dict.lookup j r)) [
      | inl e ↦ rw (spec, e) (Near-take (suc n) limit ((j, w) ∷ r) lt (inr (ne, h)))
      | inr (u, e) ↦ rw (spec, e) (inr (ne, Near-delete j n r ne h))
    ]
    Near-spec limit n (adds_if_absent j w) r lt ne h = elim (Option-cases (Dict.lookup j r)) [
      | inl e ↦ rw (spec, e) (Near-take (suc n) limit ((j, w) ∷ r) lt (inr (ne, h)))
      | inr (u, e) ↦ rw (spec, e) (Near-mono n r h)
    ]
    Near-spec limit n (asks j) r lt ne h = Near-mono n r h
    Near-spec limit n counts r lt ne h = Near-mono n r h
    Near-spec limit n clears r lt ne h = absurd ne

    Near-specs :
        (limit n : ℕ) (xs : List (Call V)) (r : List (String × V))
        → n + length xs < limit
        → All Spares xs
        → Near n r
        → Near (n + length xs) (specs limit xs r).0
    unfolding specs
    Near-specs limit n [] r lt s h = subst (λ m. Near m r) (omega arith) h
    Near-specs limit n (x ∷ xs) r lt (s0, s) h =
        let one : Near (suc n) (spec limit x r).0 =
          Near-spec limit n x r (omega (arith, lt)) s0 h in
        subst (λ m. Near m (specs limit xs (spec limit x r).0).0) (omega arith)
          (Near-specs limit (suc n) xs (spec limit x r).0 (omega (arith, lt)) s one)

module _ {V : Type 0} where
  -- Whatever was called on a new cache before, a value that is put is still returned for its key
  -- after fewer calls than the capacity that are about other keys and do not clear the cache.
  pub gets-puts :
      (zero_value : V) (capacity : ℤ) (before : List (Call V)) (k : String) (v : V)
      (between : List (Call V))
      → length between < or_default capacity 1000
      → All (Spares k) between
      → (c : Lru V) × (earlier : List (Answer V)) × (calls before (new_lru zero_value capacity)
          ≡ some (c, earlier))
        × (d : Lru V) × (later : List (Answer V)) × (calls (puts k v ∷ between) c ≡ some (d, later))
        × (e : Lru V) × (call (gets k) d ≡ some (e, found (some v)))
  unfolding specs spec promote
  gets-puts zero_value capacity before k v between lt s =
      let limit = or_default capacity 1000 in
      let (c, p, h) =
        calls_agree limit before (new_lru zero_value capacity) []
          (new_lru-IsCacheOf zero_value capacity) in
      let r = (specs limit before []).0 in
      let (d, q, j) = calls_agree limit (puts k v ∷ between) c r h in
      let start : Near k v 0 (take limit (promote k v r)) =
        Near-take k v 0 limit (promote k v r) (omega (arith, lt)) (refl, refl) in
      let near : Near k v (0 + length between) (specs limit (puts k v ∷ between) r).0 =
        Near-specs k v limit 0 between (take limit (promote k v r)) (omega (arith, lt)) s start in
      let there =
        Near-lookup k v (0 + length between) (specs limit (puts k v ∷ between) r).0 near in
      let (e, a, _) = agreement limit d (specs limit (puts k v ∷ between) r).0 j (gets k) in
      let answer : (spec limit (gets k) (specs limit (puts k v ∷ between) r).0).1 ≡ found (some v) =
        rw (spec, there) refl in
      (c, _, p, d, _, q, e, a ∙ ap (λ o. some (e, o)) answer)
