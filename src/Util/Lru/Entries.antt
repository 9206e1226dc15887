-- ===== src/Util/Lru/Entries.antt =====
-- internal/util/lru_cache.go: the keys of the nodes, as a map from keys to nodes, and the entries of
-- a cache in the order of their use.
use text.Mathlib.Text.{◌==◌}
use text.Mathlib.TextEquality.{eq_iff}
use omegacrawl.Base.{
  ℕ, suc, ◌≡◌, ◌≢◌, refl, sym, ap, ◌∙◌, true, List, [], ◌∷◌, ◌++◌, none, some, String, All, arith,
  length, inl, inr, Bool-cases,
}
use omegacrawl.Base.Dict
use omegacrawl.Sync.Laws.{Distinct}
use omegacrawl.Util.Lru.{write}

-- Nodes under their keys.
abbrev pub keyed : (ℕ → String) → List ℕ → List (String × ℕ)
keyed key_of [] = []
keyed key_of (a ∷ ns) = (key_of a, a) ∷ keyed key_of ns

module _ {V W : Type 0} (f : V → W) where
  -- Each value of a map replaced.
  abbrev pub vals : List (String × V) → List (String × W)
  vals [] = []
  vals ((k, v) ∷ m) = (k, f v) ∷ vals m

  pub delete-vals :
      (k : String) (m : List (String × V)) → Dict.delete k (vals m) ≡ vals (Dict.delete k m)
  unfolding Dict.delete
  delete-vals k [] = refl
  delete-vals k ((j, v) ∷ m) = elim (Bool-cases (j == k)) [
    | inl e ↦ rw e (delete-vals k m)
    | inr e ↦ rw e (ap (λ l. (j, f v) ∷ l) (delete-vals k m))
  ]

  pub lookup-vals :
      (k : String) (m : List (String × V))
      → Dict.lookup k (vals m) ≡ (elim (Dict.lookup k m) [ none ↦ none | some v ↦ some (f v) ])
  unfolding Dict.lookup
  lookup-vals k [] = refl
  lookup-vals k ((j, v) ∷ m) = ground (arith, lookup-vals k m)

  pub length-vals : (m : List (String × V)) → length (vals m) ≡ length m
  length-vals [] = refl
  length-vals ((j, v) ∷ m) = omega (arith, length-vals m)

module _ {V : Type 0} where
  pub delete_absent :
      (k : String) (m : List (String × V)) → Dict.lookup k m ≡ none → Dict.delete k m ≡ m
  unfolding Dict.delete Dict.lookup
  delete_absent k [] h = refl
  delete_absent k ((j, v) ∷ m) h = elim (Bool-cases (j == k)) [
    | inl e ↦ absurd (ground arith)
    | inr e ↦ rw e (ap (λ l. (j, v) ∷ l) (delete_absent k m (ground arith)))
  ]

  pub length-delete :
      (k : String) (v : V) (m : List (String × V))
      → Distinct m
      → Dict.lookup k m ≡ some v
      → suc (length (Dict.delete k m)) ≡ length m
  unfolding Dict.delete Dict.lookup
  length-delete k v [] d h = absurd (ground arith)
  length-delete k v ((j, w) ∷ m) (n, d) h = elim (Bool-cases (j == k)) [
    | inl e ↦ rw (e, delete_absent k m (ground (arith, eq_iff j k))) refl
    | inr e ↦ rw e (omega (arith, length-delete k v m d (ground arith)))
  ]

module _ (key_of : ℕ → String) where
  pub length-keyed : (ns : List ℕ) → length (keyed key_of ns) ≡ length ns
  length-keyed [] = refl
  length-keyed (a ∷ ns) = omega (arith, length-keyed ns)

  pub found :
      (us : List ℕ) (a : ℕ) (vs : List ℕ)
      → Distinct (keyed key_of (us ++ a ∷ vs))
      → Dict.lookup (key_of a) (keyed key_of (us ++ a ∷ vs)) ≡ some a
  unfolding Dict.lookup
  found [] a vs d = ground (arith, eq_iff (key_of a) (key_of a))
  found (u ∷ us) a vs (n, d) = elim (Bool-cases (key_of u == key_of a)) [
    | inl e ↦
        let p : key_of u ≡ key_of a = ground (arith, eq_iff (key_of u) (key_of a)) in
        absurd (ground (arith, found us a vs d, rw p at n))
    | inr e ↦ rw e (found us a vs d)
  ]

  -- Taking a node out of the list is deleting its key.
  pub keyed-drop :
      (us : List ℕ) (a : ℕ) (vs : List ℕ)
      → Distinct (keyed key_of (us ++ a ∷ vs))
      → Dict.delete (key_of a) (keyed key_of (us ++ a ∷ vs)) ≡ keyed key_of (us ++ vs)
  unfolding Dict.delete Dict.lookup
  keyed-drop [] a vs (n, d) =
      let e : (key_of a == key_of a) ≡ true = ground (arith, eq_iff (key_of a) (key_of a)) in
      rw e (delete_absent (key_of a) (keyed key_of vs) n)
  keyed-drop (u ∷ us) a vs (n, d) = elim (Bool-cases (key_of u == key_of a)) [
    | inl e ↦
        let p : key_of u ≡ key_of a = ground (arith, eq_iff (key_of u) (key_of a)) in
        absurd (ground (arith, found us a vs d, rw p at n))
    | inr e ↦ rw e (ap (λ l. (key_of u, u) ∷ l) (keyed-drop us a vs d))
  ]

  -- A node in front is found where it was found before.
  pub keyed_front :
      (us : List ℕ) (a : ℕ) (vs : List ℕ) (k : String)
      → Distinct (keyed key_of (us ++ a ∷ vs))
      → Dict.lookup k (keyed key_of (us ++ a ∷ vs)) ≡ Dict.lookup k (keyed key_of (a ∷ us ++ vs))
  unfolding Dict.lookup
  keyed_front us a vs k d =
      let all = keyed key_of (us ++ a ∷ vs) in
      rw (← keyed-drop us a vs d, Dict.lookup-delete (key_of a) k all)
        (elim (Bool-cases (key_of a == k)) [
          | inl e ↦
              let p : key_of a ≡ k = ground (arith, eq_iff (key_of a) k) in
              rw (e, ← p) (found us a vs d)
          | inr e ↦ rw e refl
        ])

  -- A key that is found is the key of a node of the list.
  pub split_at_key :
      (k : String) (a : ℕ) (ns : List ℕ)
      → Dict.lookup k (keyed key_of ns) ≡ some a
      → (us : List ℕ) × (vs : List ℕ) × (ns ≡ us ++ a ∷ vs) × (key_of a ≡ k)
  unfolding Dict.lookup
  split_at_key k a [] h = absurd (ground arith)
  split_at_key k a (b ∷ ns) h = elim (Bool-cases (key_of b == k)) [
    | inl e ↦
        let p : b ≡ a = ground arith in
        ([], ns, ap (λ x. x ∷ ns) p, ap key_of (sym p) ∙ ground (arith, eq_iff (key_of b) k))
    | inr e ↦
        let (us, vs, p, q) = split_at_key k a ns (ground arith) in
        (b ∷ us, vs, ap (λ l. b ∷ l) p, q)
  ]

-- A node under a new address does not change the keys and values of the others.
pub keyed-write :
    (key_of : ℕ → String) (p : ℕ) (k : String) (ns : List ℕ)
    → All (λ y. p ≢ y) ns
    → keyed (write key_of p k) ns ≡ keyed key_of ns
keyed-write key_of p k [] n = refl
keyed-write key_of p k (a ∷ ns) (m, n) =
    let e : write key_of p k a ≡ key_of a = ground arith in rw (e, keyed-write key_of p k ns n) refl

pub vals-write :
    {V : Type 0} (key_of : ℕ → String) (value_of : ℕ → V) (p : ℕ) (v : V) (ns : List ℕ)
    → All (λ y. p ≢ y) ns
    → vals (write value_of p v) (keyed key_of ns) ≡ vals value_of (keyed key_of ns)
vals-write key_of value_of p v [] n = refl
vals-write key_of value_of p v (a ∷ ns) (m, n) =
    let e : write value_of p v a ≡ value_of a = ground arith in
    rw (e, vals-write key_of value_of p v ns n) refl
