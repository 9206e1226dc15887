-- ===== src/Queue/Sorted.antt =====
-- A heap for tests: a list sorted by depth meets the laws asked of container/heap.
use Prim.Native.String.{String}
use omegacrawl.Base.{
  ℕ, suc, ◌≤◌, ◌<◌, ◌≡◌, refl, ap, Bool, List, [], ◌∷◌, Option, none, some, ltb, leb, if◌then◌else◌,
  length, arith, Bool-cases, inl, inr,
}
use omegacrawl.Queue.Item.{UrlItem, Heap, count_by}

abbrev pub shallower : ℕ → List UrlItem → ℕ
shallower d = count_by (λ u e. ltb e d)

abbrev pub IsSorted : List UrlItem → Type 0
IsSorted [] = Unit
IsSorted (x ∷ xs) = (shallower x.depth xs ≡ 0) × IsSorted xs

unfoldable pub insert : UrlItem → List UrlItem → List UrlItem
insert x [] = x ∷ []
insert x (y ∷ ys) = if leb x.depth y.depth then x ∷ y ∷ ys else y ∷ insert x ys

unfoldable pub sort : List UrlItem → List UrlItem
sort [] = []
sort (x ∷ xs) = insert x (sort xs)

pub count-insert :
    (p : String → ℕ → Bool) (x : UrlItem) (l : List UrlItem)
    → count_by p (insert x l) ≡ count_by p (x ∷ l)
unfolding count_by insert
count-insert p x [] = refl
count-insert p x (y ∷ ys) = ground (arith, count-insert p x ys)

pub length-insert : (x : UrlItem) (l : List UrlItem) → length (insert x l) ≡ suc (length l)
unfolding insert
length-insert x [] = refl
length-insert x (y ∷ ys) = ground (arith, length-insert x ys)

shallower-le : (a b : ℕ) (l : List UrlItem) → a ≤ b → shallower b l ≡ 0 → shallower a l ≡ 0
unfolding count_by
shallower-le a b [] h e = refl
shallower-le a b (x ∷ xs) h e = ground (arith, shallower-le a b xs h)

pub insert-IsSorted : (x : UrlItem) (l : List UrlItem) → IsSorted l → IsSorted (insert x l)
unfolding insert count_by
insert-IsSorted x [] s = (refl, tt)
insert-IsSorted x (y ∷ ys) (h, s) = elim (Bool-cases (leb x.depth y.depth)) [
  | inl e ↦ rw e (ground (arith, shallower-le x.depth y.depth ys), (h, s))
  | inr e ↦ rw e (ground (arith, count-insert (λ u d. ltb d y.depth) x ys), insert-IsSorted x ys s)
]

pub sort-IsSorted : (l : List UrlItem) → IsSorted (sort l)
unfolding sort
sort-IsSorted [] = tt
sort-IsSorted (x ∷ xs) = insert-IsSorted x (sort xs) (sort-IsSorted xs)

pub count-sort : (p : String → ℕ → Bool) (l : List UrlItem) → count_by p (sort l) ≡ count_by p l
unfolding sort count_by
count-sort p [] = refl
count-sort p (x ∷ xs) = ground (arith, count-insert p x (sort xs), count-sort p xs)

pub length-sort : (l : List UrlItem) → length (sort l) ≡ length l
unfolding sort
length-sort [] = refl
length-sort (x ∷ xs) = omega (arith, length-insert x (sort xs), length-sort xs)

unfoldable pub first : List UrlItem → Option (List UrlItem × UrlItem)
first [] = none
first (x ∷ xs) = some (xs, x)

pub first_cases : (l rest : List UrlItem) (x : UrlItem) → first l ≡ some (rest, x) → l ≡ x ∷ rest
unfolding first
first_cases [] rest x e = cc
first_cases (y ∷ ys) rest x e = cc

pub first-some :
    (l : List UrlItem)
    → 0 < length l
    → (rest : List UrlItem) × (x : UrlItem) × (first l ≡ some (rest, x))
unfolding first
first-some [] h = absurd (omega arith)
first-some (x ∷ xs) h = (xs, x, refl)

pub first-least :
    (l rest : List UrlItem) (x : UrlItem)
    → IsSorted l
    → first l ≡ some (rest, x)
    → shallower x.depth l ≡ 0
unfolding first count_by
first-least [] rest x s e = cc
first-least (y ∷ ys) rest x (h, s) e = ground arith

pub first-IsSorted :
    (l rest : List UrlItem) (x : UrlItem) → IsSorted l → first l ≡ some (rest, x) → IsSorted rest
unfolding first
first-IsSorted [] rest x s e = cc
first-IsSorted (y ∷ ys) rest x (h, s) e =
    let k : ys ≡ rest =
      ap (λ l. elim l [ [] ↦ [] | z ∷ zs ↦ zs ]) (first_cases (y ∷ ys) rest x e) in
    rw k at s

abbrev pub sorted_list : Heap
sorted_list = record {
  IsHeap = IsSorted;
  init = sort;
  push = insert;
  pop = first;
  init-IsHeap = sort-IsSorted;
  push-IsHeap = insert-IsSorted;
  count-init = count-sort;
  count-push = count-insert;
  length-init = length-sort;
  length-push = length-insert;
  pop-some = λ l h k. first-some l k;
  pop-IsHeap = first-IsSorted;
  count-pop = λ p l rest x h e. ap (count_by p) (first_cases l rest x e);
  length-pop = λ l rest x h e. ap length (first_cases l rest x e);
  pop-least = first-least;
}
