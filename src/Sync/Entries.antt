-- ===== src/Sync/Entries.antt =====
-- internal/sync/sharded.go: the operations keep a sharded map well formed, and `Range` visits
-- each entry of the map.
use Prim.Native.String.{String}
use Prim.Native.Nat.{bit_and}
use text.Mathlib.Text.{◌==◌}
use text.Mathlib.TextEquality.{eq_iff}
use omegacrawl.Base.{
  ℕ, ◌≡◌, refl, sym, ap, ◌∙◌, ◌⊎◌, inl, inr, List, [], ◌∷◌, ◌++◌, some, arith, Bool-cases,
}
use omegacrawl.Base.Dict
use omegacrawl.Sync.Keyed.{Has}
use omegacrawl.Sync.Laws.{Distinct, Placed}

module _ {V : Type 0} where
  pub Distinct-insert :
      (k : String) (v : V) (s : List (String × V)) → Distinct s → Distinct (Dict.insert k v s)
  unfolding Dict.insert Dict.lookup
  Distinct-insert k v [] d = (refl, tt)
  Distinct-insert k v ((j, w) ∷ s) (n, d) = elim (Bool-cases (j == k)) [
    | inl e ↦ rw e (ground (arith, eq_iff j k), d)
    | inr e ↦ rw e (
      ground (arith, Dict.lookup-insert k j v s, eq_iff k j, eq_iff j k),
      Distinct-insert k v s d,
    )
  ]

  pub Distinct-delete :
      (k : String) (s : List (String × V)) → Distinct s → Distinct (Dict.delete k s)
  unfolding Dict.delete Dict.lookup
  Distinct-delete k [] d = tt
  Distinct-delete k ((j, w) ∷ s) (n, d) = elim (Bool-cases (j == k)) [
    | inl e ↦ rw e (Distinct-delete k s d)
    | inr e ↦
        rw e
          (ground (arith, Dict.lookup-delete k j s, eq_iff k j, eq_iff j k), Distinct-delete k s d)
  ]

  pub Has-append-left : (e : String × V) (xs ys : List (String × V)) → Has e xs → Has e (xs ++ ys)
  Has-append-left e [] ys h = absurd h
  Has-append-left e (x ∷ xs) ys (inl p) = inl p
  Has-append-left e (x ∷ xs) ys (inr h) = inr (Has-append-left e xs ys h)

  pub Has-append-right : (e : String × V) (xs ys : List (String × V)) → Has e ys → Has e (xs ++ ys)
  Has-append-right e [] ys h = h
  Has-append-right e (x ∷ xs) ys h = inr (Has-append-right e xs ys h)

  pub Has-append-cases :
      (e : String × V) (xs ys : List (String × V)) → Has e (xs ++ ys) → Has e xs ⊎ Has e ys
  Has-append-cases e [] ys h = inr h
  Has-append-cases e (x ∷ xs) ys (inl p) = inl (inl p)
  Has-append-cases e (x ∷ xs) ys (inr h) = elim (Has-append-cases e xs ys h) [
    | inl a ↦ inl (inr a)
    | inr b ↦ inr b
  ]

  pub lookup_of_Has :
      (k : String) (v : V) (s : List (String × V))
      → Distinct s
      → Has (k, v) s
      → Dict.lookup k s ≡ some v
  unfolding Dict.lookup
  lookup_of_Has k v [] d h = absurd h
  lookup_of_Has k v ((j, w) ∷ s) (n, d) (inl p) =
      let ek : j ≡ k = ap (λ e. e.0) p in
      let ev : w ≡ v = ap (λ e. e.1) p in ground (arith, eq_iff j k)
  lookup_of_Has k v ((j, w) ∷ s) (n, d) (inr h) =
      ground (arith, eq_iff j k, lookup_of_Has k v s d h)

  pub Has-of_lookup :
      (k : String) (v : V) (s : List (String × V)) → Dict.lookup k s ≡ some v → Has (k, v) s
  unfolding Dict.lookup
  Has-of_lookup k v [] h = cc
  Has-of_lookup k v ((j, w) ∷ s) h = elim (Bool-cases (j == k)) [
    | inl e ↦ inl (ground (arith, eq_iff j k))
    | inr e ↦ inr (Has-of_lookup k v s (ground arith))
  ]

module _ (hash_fn : String → ℕ) {V : Type 0} where
  pub Placed-insert :
      (mask i : ℕ) (k : String) (v : V) (s : List (String × V))
      → bit_and (hash_fn k) mask ≡ i
      → Placed hash_fn mask i s
      → Placed hash_fn mask i (Dict.insert k v s)
  unfolding Dict.insert
  Placed-insert mask i k v [] e p = (e, tt)
  Placed-insert mask i k v ((j, w) ∷ s) e (q, p) = elim (Bool-cases (j == k)) [
    | inl b ↦ rw b (e, p)
    | inr b ↦ rw b (q, Placed-insert mask i k v s e p)
  ]

  pub Placed-delete :
      (mask i : ℕ) (k : String) (s : List (String × V))
      → Placed hash_fn mask i s
      → Placed hash_fn mask i (Dict.delete k s)
  unfolding Dict.delete
  Placed-delete mask i k [] p = tt
  Placed-delete mask i k ((j, w) ∷ s) (q, p) = elim (Bool-cases (j == k)) [
    | inl b ↦ rw b (Placed-delete mask i k s p)
    | inr b ↦ rw b (q, Placed-delete mask i k s p)
  ]

  pub Placed-Has :
      (mask i : ℕ) (k : String) (v : V) (s : List (String × V))
      → Placed hash_fn mask i s
      → Has (k, v) s
      → bit_and (hash_fn k) mask ≡ i
  Placed-Has mask i k v [] p h = absurd h
  Placed-Has mask i k v ((j, w) ∷ s) (q, p) (inl e) =
      ap (λ x. bit_and (hash_fn x.0) mask) (sym e) ∙ q
  Placed-Has mask i k v ((j, w) ∷ s) (q, p) (inr h) = Placed-Has mask i k v s p h
