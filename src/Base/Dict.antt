-- ===== src/Base/Dict.antt =====
-- Go's `map[string]T` as an association list over native strings, and sets of strings.
use Prim.Native.Nat.{◌+◌}
use Prim.Native.String.{String}
use text.Mathlib.Text.{◌==◌}
use text.Mathlib.TextEquality.{eq_iff}
use mathlib.Core.Path.{◌≡◌, refl}
use mathlib.Core.Bool.{Bool, true, false}
use mathlib.Core.List.{List, [], ◌∷◌}
use mathlib.Core.Option.{Option, none, some}
use native.Mathlib.Omega.{arith}
use omegacrawl.Base.Tests.{if◌then◌else◌}
use omegacrawl.Base.Lists.{length}

module _ {ℓ} {V : Type ℓ} where
  -- `m[key]`
  unfoldable pub lookup : String → List (String × V) → Option V
  lookup key [] = none
  lookup key ((other, val) ∷ entries) =
      let rest = lookup key entries in if other == key then some val else rest

  -- `delete(m, key)`
  unfoldable pub delete : String → List (String × V) → List (String × V)
  delete key [] = []
  delete key ((other, val) ∷ entries) =
      let rest = delete key entries in if other == key then rest else (other, val) ∷ rest

  -- `m[key] = val`
  unfoldable pub insert : String → V → List (String × V) → List (String × V)
  insert key val [] = (key, val) ∷ []
  insert key val ((other, old) ∷ entries) =
      let rest = insert key val entries in
      if other == key then (key, val) ∷ entries else (other, old) ∷ rest

  -- A write is read back under its key, and nowhere else.
  pub lookup-insert :
      (key other : String) (val : V) (entries : List (String × V))
      → lookup other (insert key val entries)
        ≡ (if key == other then some val else lookup other entries)
  unfolding insert lookup
  lookup-insert key other val [] = refl
  lookup-insert key other val ((here, old) ∷ entries) = ground (
    arith,
    lookup-insert key other val entries,
    eq_iff here other,
    eq_iff here key,
    eq_iff key other,
  )

  pub lookup-delete :
      (k j : String) (m : List (String × V))
      → lookup j (delete k m) ≡ (if k == j then none else lookup j m)
  unfolding lookup delete
  lookup-delete k j [] = ground arith
  lookup-delete k j ((i, w) ∷ m) =
      ground (arith, eq_iff k j, eq_iff i k, eq_iff i j, lookup-delete k j m)

  -- Inserting a present key keeps the size, a new key adds one entry.
  pub length-insert :
      (k : String) (v : V) (m : List (String × V))
      → length (insert k v m) ≡ (elim (lookup k m) [ none ↦ length m + 1 | some _ ↦ length m ])
  unfolding lookup insert
  length-insert k v [] = omega arith
  length-insert k v ((j, w) ∷ m) = ground (arith, length-insert k v m)

-- A set of strings: `map[string]bool` where only `true` is ever stored.
unfoldable pub member : String → List String → Bool
member k [] = false
member k (j ∷ m) = if j == k then true else member k m

unfoldable pub add : String → List String → List String
unfolding member
add k m = if member k m then m else k ∷ m

pub member-add :
    (k j : String) (m : List String) → member j (add k m) ≡ (if k == j then true else member j m)
unfolding member add
member-add k j m = ground (arith, eq_iff k j)
