-- ===== src/Util/BoundedQueue.antt =====
-- internal/util/bounded_queue.go: `BoundedQueue`, a ring buffer that drops its oldest item when it
-- is full. A slot of the buffer is nil (`none`) until it is written. The mutex makes each method
-- one step.
use omegacrawl.Base.{
  ℕ, zero, suc, ◌+◌, ◌%◌, Bool, List, [], ◌∷◌, Option, none, some, ◌==◌, if◌then◌else◌, length,
  get_elem?, set, replicate,
}
use omegacrawl.Base.Int.{ℤ, or_default}
pub mod Refines
pub mod History

pub record BoundedQueue {ℓ} (A : Type ℓ) : Type ℓ where
  pub capacity : ℕ
  pub items : List (Option A)
  pub head : ℕ
  pub tail : ℕ
  pub size : ℕ

module _ {ℓ} {A : Type ℓ} where
  -- `NewBoundedQueue`
  unfoldable pub new_bounded_queue : ℤ → BoundedQueue A
  new_bounded_queue capacity = record {
    capacity = or_default capacity 1000;
    items = replicate (or_default capacity 1000) none;
    head = 0;
    tail = 0;
    size = 0;
  }

  unfoldable pub push : A → BoundedQueue A → BoundedQueue A
  push item q =
      if q.size == q.capacity
      then record q {
        items = set q.items q.head (some item);
        head = (q.head + 1) % q.capacity;
        tail = (q.tail + 1) % q.capacity;
      }
      else record q {
        items = set q.items q.tail (some item);
        tail = (q.tail + 1) % q.capacity;
        size = q.size + 1;
      }

  -- The loop of `GetAll` from the index `i`, with `n` rounds left. `none` is the panic of an index
  -- out of range.
  unfoldable pub read_from : ℕ → ℕ → BoundedQueue A → Option (List (Option A))
  read_from zero i q = some []
  read_from (suc n) i q = elim (get_elem? q.items ((q.head + i) % q.capacity)) [
    | none ↦ none
    | some x ↦ elim (read_from n (i + 1) q) [ none ↦ none | some xs ↦ some (x ∷ xs) ]
  ]

  -- A nil result and an empty one are the same list.
  unfoldable pub get_all : BoundedQueue A → Option (List (Option A))
  get_all q = let all = read_from q.size 0 q in if q.size == 0 then some [] else all

  unfoldable pub len : BoundedQueue A → ℕ
  len q = q.size

  unfoldable pub clear : BoundedQueue A → BoundedQueue A
  clear q = record q { head = 0; tail = 0; size = 0; items = replicate (length q.items) none }
