-- ===== src/Base/Perms.antt =====
-- Permutations of lists that move one element.
use mathlib.Core.List.{List, [], ◌∷◌, ◌++◌, Permᴰ}
use mathlib.Core.List.Permᴰ as PermLaws
use mathlib.Core.Path.{refl}

module _ {A : Type 0} where
  pub perm_middle : (a c : List A) (x : A) → Permᴰ (x ∷ a ++ c) (a ++ x ∷ c)
  perm_middle [] c x = PermLaws.refl (x ∷ c)
  perm_middle (b ∷ a) c x = Permᴰ.trans (Permᴰ.swap refl refl) (Permᴰ.cons refl (perm_middle a c x))

  pub perm_after : (a : List A) {c d : List A} → Permᴰ c d → Permᴰ (a ++ c) (a ++ d)
  perm_after [] p = p
  perm_after (b ∷ a) p = Permᴰ.cons refl (perm_after a p)
