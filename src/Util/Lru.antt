-- ===== src/Util/Lru.antt =====
-- internal/util/lru_cache.go and lru_set.go: a map, and a set, of bounded size that drop their least
-- recently used entry. Both are a Go map from keys to nodes of a doubly linked list between two
-- sentinels; a set is the map whose values are units. A node is an address, the fields of nodes are
-- functions of it, 0 is nil, and `none` is the panic of a dereferenced nil. The mutex makes each
-- method one step.
use Prim.Native.String.{String}
use omegacrawl.Base.{
  ℕ, suc, ◌+◌, Bool, true, false, ◌||◌, List, [], ◌∷◌, Option, none, some, ltb, ◌==◌, if◌then◌else◌,
  length,
}
use omegacrawl.Base.Int.{ℤ, or_default}
use omegacrawl.Base.Dict
pub mod Links
pub mod Ring
pub mod Entries
pub mod Holds
pub mod Insert
pub mod Spec
pub mod Refines
pub mod History
pub mod Kept
mod Examples

pub record Lru (V : Type 0) : Type 0 where
  pub capacity : ℕ
  pub items : List (String × ℕ)
  pub head : ℕ
  pub tail : ℕ
  pub next_of : ℕ → ℕ
  pub prev_of : ℕ → ℕ
  pub key_of : ℕ → String
  pub value_of : ℕ → V
  pub fresh : ℕ  -- the address of the next node

-- `p.field = v`
abbrev pub write {ℓ} : {A : Type ℓ} → (ℕ → A) → ℕ → A → ℕ → A
write f p v x = if p == x then v else f x

module _ {V : Type 0} where
  -- `NewLRUCache` and `NewLRUSet`; `zero_value` is the value of the sentinels.
  unfoldable pub new_lru : V → ℤ → Lru V
  new_lru zero_value capacity = record {
    capacity = or_default capacity 1000;
    items = [];
    head = 1;
    tail = 2;
    next_of = write (λ p. 0) 1 2;
    prev_of = write (λ p. 0) 2 1;
    key_of = λ p. "";
    value_of = λ p. zero_value;
    fresh = 3;
  }

  unfoldable pub add_to_head : ℕ → Lru V → Option (Lru V)
  add_to_head node c =
      let first = c.next_of c.head in
      if first == 0
      then none
      else some (record c {
        prev_of = write (write c.prev_of node c.head) first node;
        next_of = write (write c.next_of node first) c.head node;
      })

  unfoldable pub remove_node : ℕ → Lru V → Option (Lru V)
  remove_node node c =
      let prev = c.prev_of node in
      let next = c.next_of node in
      if prev == 0 || next == 0
      then none
      else some
          (record c { next_of = write c.next_of prev next; prev_of = write c.prev_of next prev })

  unfoldable pub move_to_head : ℕ → Lru V → Option (Lru V)
  unfolding add_to_head remove_node
  move_to_head node c = elim (remove_node node c) [ none ↦ none | some d ↦ add_to_head node d ]

  unfoldable pub remove_lru : Lru V → Option (Lru V)
  unfolding remove_node
  remove_lru c =
      let node = c.prev_of c.tail in
      if node == c.head then some c else elim (remove_node node c) [
        | none ↦ none
        | some d ↦ some (record d { items = Dict.delete (d.key_of node) d.items })
      ]

  -- A node is allocated, stored under its key and put in front; then one is dropped if the map holds
  -- more than the capacity.
  unfoldable pub insert_new : String → V → Lru V → Option (Lru V)
  unfolding add_to_head remove_lru
  insert_new key value c =
      let node = c.fresh in
      elim (add_to_head node (record c {
        items = Dict.insert key node c.items;
        key_of = write c.key_of node key;
        value_of = write c.value_of node value;
        next_of = write c.next_of node 0;
        prev_of = write c.prev_of node 0;
        fresh = node + 1;
      })) [
        | none ↦ none
        | some d ↦ if ltb d.capacity (length d.items) then remove_lru d else some d
      ]

  -- `LRUCache.Get`
  unfoldable pub get : String → Lru V → Option (Lru V × Option V)
  unfolding move_to_head
  get key c = elim (Dict.lookup key c.items) [
    | none ↦ some (c, none)
    | some node ↦ elim (move_to_head node c) [
      | none ↦ none
      | some d ↦ some (d, some (d.value_of node))
    ]
  ]

  -- `LRUCache.Put`, and `LRUSet.Add` where values are units.
  unfoldable pub put : String → V → Lru V → Option (Lru V)
  unfolding move_to_head insert_new
  put key value c = elim (Dict.lookup key c.items) [
    | some node ↦ move_to_head node (record c { value_of = write c.value_of node value })
    | none ↦ insert_new key value c
  ]

  -- `LRUCache.PutIfAbsent`: the value, and whether it was added.
  unfoldable pub put_if_absent : String → V → Lru V → Option (Lru V × V × Bool)
  unfolding move_to_head insert_new
  put_if_absent key value c = elim (Dict.lookup key c.items) [
    | some node ↦ elim (move_to_head node c) [
      | none ↦ none
      | some d ↦ some (d, d.value_of node, false)
    ]
    | none ↦ elim (insert_new key value c) [ none ↦ none | some d ↦ some (d, value, true) ]
  ]

  -- `LRUSet.AddIfAbsent`, which does not move a key that is present.
  unfoldable pub add_if_absent : String → V → Lru V → Option (Lru V × Bool)
  unfolding insert_new
  add_if_absent key value c = elim (Dict.lookup key c.items) [
    | some node ↦ some (c, false)
    | none ↦ elim (insert_new key value c) [ none ↦ none | some d ↦ some (d, true) ]
  ]

  -- `LRUSet.Contains` and `LRUSet.Len`
  unfoldable pub contains : String → Lru V → Bool
  contains key c = elim (Dict.lookup key c.items) [ none ↦ false | some node ↦ true ]

  unfoldable pub len : Lru V → ℕ
  len c = length c.items

  -- `LRUSet.Clear`
  unfoldable pub clear : Lru V → Lru V
  clear c = record c {
    items = [];
    next_of = write c.next_of c.head c.tail;
    prev_of = write c.prev_of c.tail c.head;
  }
