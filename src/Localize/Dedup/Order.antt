-- ===== src/Localize/Dedup/Order.antt =====
-- internal/localize/dedup.go: which of two pages is preferred.
use omegacrawl.Base.{
  ℕ, ◌≡◌, refl, Bool, true, false, ◌&&◌, ◌||◌, List, [], ◌∷◌, String, ltb, ◌==◌, arith,
}
use omegacrawl.Localize.Dedup.{Pages, bytes_less}

pub bytes_less_irrefl : (a : List ℕ) → bytes_less a a ≡ false
unfolding bytes_less
bytes_less_irrefl [] = refl
bytes_less_irrefl (x ∷ a) = ground (arith, bytes_less_irrefl a)

pub bytes_less_trans :
    (a b c : List ℕ) → bytes_less a b ≡ true → bytes_less b c ≡ true → bytes_less a c ≡ true
unfolding bytes_less
bytes_less_trans [] [] c p q = ground arith
bytes_less_trans [] (y ∷ b) [] p q = ground arith
bytes_less_trans [] (y ∷ b) (z ∷ c) p q = refl
bytes_less_trans (x ∷ a) [] c p q = ground arith
bytes_less_trans (x ∷ a) (y ∷ b) [] p q = ground arith
bytes_less_trans (x ∷ a) (y ∷ b) (z ∷ c) p q = ground (arith, bytes_less_trans a b c)

pub bytes_less_total : (a b : List ℕ) → bytes_less a b ≡ false → bytes_less b a ≡ false → a ≡ b
unfolding bytes_less
bytes_less_total [] [] p q = refl
bytes_less_total [] (y ∷ b) p q = ground arith
bytes_less_total (x ∷ a) [] p q = ground arith
bytes_less_total (x ∷ a) (y ∷ b) p q =
    let e : x ≡ y = ground arith in rw (e, bytes_less_total a b (ground arith) (ground arith)) refl

module _ (pages : Pages) where
  abbrev pub weight : String → ℕ
  weight p = pages.clean_weight (pages.url_from_local_path p)

  -- The page is less noisy, or as noisy and first in the order of paths.
  unfoldable pub beats : String → String → Bool
  unfolding bytes_less
  beats p q =
      ltb (weight p) (weight q)
      || (weight p == weight q && bytes_less (pages.rel_within p) (pages.rel_within q))

  pub beats_irrefl : (p : String) → beats p p ≡ false
  unfolding beats
  beats_irrefl p = ground (arith, bytes_less_irrefl (pages.rel_within p))

  -- What does not beat a page does not beat one that beats it.
  pub beats_trans : (p q r : String) → beats p q ≡ true → beats r q ≡ false → beats r p ≡ false
  unfolding beats
  beats_trans p q r h k =
      ground
        (arith, bytes_less_trans (pages.rel_within r) (pages.rel_within p) (pages.rel_within q))

  -- Of two pages that do not beat each other the paths are equal.
  pub beats_total :
      (p q : String)
      → beats p q ≡ false
      → beats q p ≡ false
      → pages.rel_within p ≡ pages.rel_within q
  unfolding beats
  beats_total p q h k =
      bytes_less_total (pages.rel_within p) (pages.rel_within q) (ground arith) (ground arith)
