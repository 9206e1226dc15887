-- ===== src/Sync/Keyed.antt =====
-- The part of internal/sync/sharded.go that its clients rely on: the operations of a map from
-- strings, with the laws that `Sync.Sharded` proves of them.
use Prim.Native.String.{String}
use text.Mathlib.Text.{◌==◌}
use omegacrawl.Base.{◌≡◌, ◌⊎◌, ◌↔◌, Option, none, some, List, [], ◌∷◌, if◌then◌else◌}

-- `e` stands in the list.
abbrev pub Has : {A : Type 0} → A → List A → Type 0
Has e [] = ⊥
Has e (x ∷ xs) = (x ≡ e) ⊎ Has e xs

pub record KeyedMap (V : Type 0) : Type 1 where
  pub Map : Type 0
  pub IsValid : Map → Type 0
  pub get : String → Map → Option V
  pub put : String → V → Map → Map
  pub delete : String → Map → Map
  -- What `Range` visits, in its order.
  pub entries : Map → List (String × V)
  pub put-IsValid : (k : String) (v : V) (m : Map) → IsValid m → IsValid (put k v m)
  pub delete-IsValid : (k : String) (m : Map) → IsValid m → IsValid (delete k m)
  pub get-put :
      (k j : String) (v : V) (m : Map)
      → IsValid m
      → get j (put k v m) ≡ (if k == j then some v else get j m)
  pub get-delete :
      (k j : String) (m : Map) → IsValid m → get j (delete k m) ≡ (if k == j then none else get j m)
  pub Has-entries :
      (k : String) (v : V) (m : Map) → IsValid m → Has (k, v) (entries m) ↔ (get k m ≡ some v)
