-- ===== src/Queue/Item.antt =====
-- internal/queue/types.go and heap.go: queued URLs, the methods that container/heap calls, and
-- what the queue relies on of container/heap, which is not part of the repository.
use Prim.Native.String.{String}
use omegacrawl.Base.{
  ℕ, suc, ◌+◌, ◌-◌, ◌<◌, ◌≡◌, Bool, List, [], ◌∷◌, ◌++◌, Option, none, some, ltb, if◌then◌else◌,
  length, get_elem?, set, take,
}
use omegacrawl.Base.Int.{ℤ, pos, negsuc}

pub record UrlItem : Type 0 where
  pub url : String
  pub depth : ℕ
  pub index : ℤ

-- `Less`; `none` is the panic of an index out of range.
unfoldable pub less : List UrlItem → ℕ → ℕ → Option Bool
less items i j = elim (get_elem? items i) [
  | none ↦ none
  | some a ↦ elim (get_elem? items j) [ none ↦ none | some b ↦ some (ltb a.depth b.depth) ]
]

-- `Swap`: the elements trade places, then the index of each is set.
unfoldable pub swap : List UrlItem → ℕ → ℕ → Option (List UrlItem)
swap items i j = elim (get_elem? items i) [
  | none ↦ none
  | some a ↦ elim (get_elem? items j) [
    | none ↦ none
    | some b ↦ some (set (set items i (record b { index = pos i })) j (record a { index = pos j }))
  ]
]

-- `Push` of heap.go: append, with the index set.
unfoldable pub push_back : UrlItem → List UrlItem → List UrlItem
push_back x items = items ++ record x { index = pos (length items) } ∷ []

-- `Pop` of heap.go: the last item, its index set to -1; on no item it panics.
unfoldable pub pop_back : List UrlItem → Option (List UrlItem × UrlItem)
pop_back items = elim (get_elem? items (length items - 1)) [
  | none ↦ none
  | some x ↦ some (take (length items - 1) items, record x { index = negsuc 0 })
]

-- How many items have a URL and a depth that pass the test.
unfoldable pub count_by : (String → ℕ → Bool) → List UrlItem → ℕ
count_by p [] = 0
count_by p (x ∷ xs) = (if p x.url x.depth then 1 else 0) + count_by p xs

-- container/heap over `Less`: `Init` establishes the heap order, `Push` and `Pop` keep it, no item
-- is lost or made up (indices aside), and `Pop` returns an item of least depth.
pub record Heap : Type 1 where
  pub IsHeap : List UrlItem → Type 0
  pub init : List UrlItem → List UrlItem
  pub push : UrlItem → List UrlItem → List UrlItem
  -- On an empty heap `heap.Pop` panics.
  pub pop : List UrlItem → Option (List UrlItem × UrlItem)
  pub init-IsHeap : (l : List UrlItem) → IsHeap (init l)
  pub push-IsHeap : (x : UrlItem) (l : List UrlItem) → IsHeap l → IsHeap (push x l)
  pub count-init : (p : String → ℕ → Bool) (l : List UrlItem) → count_by p (init l) ≡ count_by p l
  pub count-push :
      (p : String → ℕ → Bool) (x : UrlItem) (l : List UrlItem)
      → count_by p (push x l) ≡ count_by p (x ∷ l)
  pub length-init : (l : List UrlItem) → length (init l) ≡ length l
  pub length-push : (x : UrlItem) (l : List UrlItem) → length (push x l) ≡ suc (length l)
  pub pop-some :
      (l : List UrlItem)
      → IsHeap l
      → 0 < length l
      → (rest : List UrlItem) × (x : UrlItem) × (pop l ≡ some (rest, x))
  pub pop-IsHeap :
      (l rest : List UrlItem) (x : UrlItem) → IsHeap l → pop l ≡ some (rest, x) → IsHeap rest
  pub count-pop :
      (p : String → ℕ → Bool) (l rest : List UrlItem) (x : UrlItem)
      → IsHeap l
      → pop l ≡ some (rest, x)
      → count_by p l ≡ count_by p (x ∷ rest)
  pub length-pop :
      (l rest : List UrlItem) (x : UrlItem)
      → IsHeap l
      → pop l ≡ some (rest, x)
      → length l ≡ suc (length rest)
  pub pop-least :
      (l rest : List UrlItem) (x : UrlItem)
      → IsHeap l
      → pop l ≡ some (rest, x)
      → count_by (λ u d. ltb d x.depth) l ≡ 0
