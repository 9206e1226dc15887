-- ===== src/Base/Bytes.antt =====
-- Go's `map[string]T` as an association list over byte strings.
use mathlib.Core.Path.{◌≡◌, refl, ◌∙◌, subst}
use mathlib.Core.Logic.{inl, inr}
use mathlib.Core.Bool.{true, false}
use mathlib.Core.List.{List, [], ◌∷◌}
use mathlib.Core.Option.{Option, none, some}
use native.Mathlib.Omega.{arith}
use Prim.Native.Nat.{ℕ}
use omegacrawl.Base.Tests.{if◌then◌else◌, Bool-cases}
use omegacrawl.Errors.Contains.{bytes_equal, bytes_equal_iff}

pub bytes_equal_refl : (k : List ℕ) → bytes_equal k k ≡ true
bytes_equal_refl k = (bytes_equal_iff k k).1 refl

module _ {ℓ} {V : Type ℓ} where
  -- `m[key]`
  unfoldable pub lookup : List ℕ → List (List ℕ × V) → Option V
  lookup key [] = none
  lookup key ((other, val) ∷ entries) =
      let rest = lookup key entries in if bytes_equal other key then some val else rest

  -- `m[key] = val`
  unfoldable pub insert : List ℕ → V → List (List ℕ × V) → List (List ℕ × V)
  insert key val [] = (key, val) ∷ []
  insert key val ((other, old) ∷ entries) =
      let rest = insert key val entries in
      if bytes_equal other key then (key, val) ∷ entries else (other, old) ∷ rest

  -- No key stands twice.
  abbrev pub IsDistinct : List (List ℕ × V) → Type ℓ
  IsDistinct [] = Unit
  IsDistinct ((key, val) ∷ entries) = (lookup key entries ≡ none) × IsDistinct entries

  pub lookup-insert :
      (key other : List ℕ) (val : V) (entries : List (List ℕ × V))
      → lookup other (insert key val entries)
        ≡ (if bytes_equal key other then some val else lookup other entries)
  unfolding insert lookup
  lookup-insert key other val [] = refl
  lookup-insert key other val ((here, old) ∷ entries) = ground (
    arith,
    lookup-insert key other val entries,
    bytes_equal_iff here other,
    bytes_equal_iff here key,
    bytes_equal_iff key other,
  )

  pub insert-IsDistinct :
      (key : List ℕ) (val : V) (entries : List (List ℕ × V))
      → IsDistinct entries
      → IsDistinct (insert key val entries)
  unfolding insert lookup
  insert-IsDistinct key val [] d = (refl, tt)
  insert-IsDistinct key val ((here, old) ∷ entries) (f, d) =
      elim (Bool-cases (bytes_equal here key)) [
        | inl t ↦
            let e : here ≡ key = (bytes_equal_iff here key).0 t in
            let g : lookup key entries ≡ none = subst (λ k. lookup k entries ≡ none) e f in
            rw (insert, t) (g, d)
        | inr t ↦
            let n : bytes_equal key here ≡ false =
              ground (arith, bytes_equal_iff key here, bytes_equal_iff here key) in
            rw (insert, t)
              ((lookup-insert key here val entries ∙ rw n f), insert-IsDistinct key val entries d)
      ]
