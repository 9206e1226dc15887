-- ===== src/Queue/Priority.antt =====
-- internal/queue/ops.go: `PriorityQueue` over container/heap. The mutex makes each method one step.
-- `seen` holds the keys that the Go map holds with `true`; nothing ever stores `false`.
use Prim.Native.String.{String}
use omegacrawl.Base.{ℕ, Bool, true, false, List, [], ◌∷◌, Option, none, some, if◌then◌else◌, length}
use omegacrawl.Base.Int.{ℤ, pos, int_leb}
use omegacrawl.Base.Dict.{member, add}
use omegacrawl.Queue.Item.{UrlItem, Heap}

pub record PriorityQueue : Type 0 where
  pub items : List UrlItem
  pub seen : List String
  pub max_size : ℤ

abbrev pub default_max_queue_size : ℤ
default_max_queue_size = pos 100000

unfoldable pub size : PriorityQueue → ℕ
size q = length q.items

unfoldable pub has_seen : String → PriorityQueue → Bool
has_seen url q = member url q.seen

unfoldable pub mark_seen : String → PriorityQueue → PriorityQueue
mark_seen url q = record q { seen = add url q.seen }

unfoldable pub set_max_size : ℤ → PriorityQueue → PriorityQueue
set_max_size n q = record q { max_size = n }

unfoldable pub items : PriorityQueue → List UrlItem
items q = q.items

unfoldable pub all_visited : PriorityQueue → List String
all_visited q = q.seen

unfoldable pub snapshot : PriorityQueue → List UrlItem × List String
snapshot q = (q.items, q.seen)

module _ (H : Heap) where
  unfoldable pub new_priority_queue_with_max_size : ℤ → PriorityQueue
  new_priority_queue_with_max_size max_size = record {
    items = H.init [];
    seen = [];
    max_size = max_size;
  }

  unfoldable pub new_priority_queue : PriorityQueue
  unfolding new_priority_queue_with_max_size
  new_priority_queue = new_priority_queue_with_max_size default_max_queue_size

  unfoldable pub push_url : String → ℕ → PriorityQueue → PriorityQueue × Bool
  push_url url depth q =
      if member url q.seen
      then (q, false)
      else if int_leb q.max_size (pos (length q.items))
      then (q, false)
      else (
        record q {
          seen = add url q.seen;
          items = H.push (record { url = url; depth = depth; index = pos 0 }) q.items;
        },
        true,
      )

  -- The outer `none` is a panic of container/heap, the inner one the result `false`.
  unfoldable pub pop_url : PriorityQueue → Option (PriorityQueue × Option UrlItem)
  pop_url q = elim q.items [
    | [] ↦ some (q, none)
    | x ∷ xs ↦ elim (H.pop (x ∷ xs)) [
      | none ↦ none
      | some (rest, item) ↦ some (record q { items = rest }, some item)
    ]
  ]

  unfoldable pub load_from_checkpoint : List UrlItem → List String → PriorityQueue → PriorityQueue
  load_from_checkpoint items visited q = record q { items = H.init items; seen = visited }
