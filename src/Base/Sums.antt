-- ===== src/Base/Sums.antt =====
-- Sums of a weight over a list, as an element is added or replaced.
use Prim.Native.Nat.{ℕ, zero, suc, ◌+◌}
use mathlib.Core.Path.{◌≡◌}
use mathlib.Core.List.{List, [], ◌∷◌, ◌++◌}
use mathlib.Core.Option.{some}
use native.Mathlib.Omega.{arith}
use omegacrawl.Base.Lists.{get_elem?, set}

module _ {ℓ} {A : Type ℓ} (w : A → ℕ) where
  unfoldable pub total : List A → ℕ
  total [] = 0
  total (x ∷ xs) = w x + total xs

  pub total-snoc : (xs : List A) (a : A) → total (xs ++ a ∷ []) ≡ total xs + w a
  unfolding total
  total-snoc [] a = omega arith
  total-snoc (x ∷ xs) a = omega (arith, total-snoc xs a)

  pub total-set :
      (xs : List A) (i : ℕ) (a b : A)
      → get_elem? xs i ≡ some a
      → total (set xs i b) + w a ≡ total xs + w b
  unfolding total
  total-set [] i a b h = cc
  total-set (x ∷ xs) zero a b h = ground arith
  total-set (x ∷ xs) (suc i) a b h = omega (arith, total-set xs i a b h)
