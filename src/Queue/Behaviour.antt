-- ===== src/Queue/Behaviour.antt =====
-- internal/queue/ops.go: each call of the queue on every branch, its bound, and the checkpoint.
use Prim.Native.String.{String}
use text.Mathlib.TextEquality.{eq_iff}
use omegacrawl.Base.{
  ℕ, suc, ◌+◌, ◌≤◌, ◌≡◌, refl, Bool, true, false, List, [], ◌∷◌, none, some, ltb, length, arith,
  inl, inr, ◌⊎◌,
}
use omegacrawl.Base.Int.{ℤ, pos, int_leb}
use omegacrawl.Base.Dict.{member-add}
use omegacrawl.Queue.Item.{UrlItem, Heap, count_by}
use omegacrawl.Queue.Priority.{
  PriorityQueue, mark_seen, push_url, pop_url, has_seen, size, snapshot, load_from_checkpoint,
}

module _ (H : Heap) where
  pop_url_at :
      (l : List UrlItem) (seen : List String) (max_size : ℤ)
      → H.IsHeap l
      → (let q : PriorityQueue = record { items = l; seen = seen; max_size = max_size } in
          ((l ≡ []) × (pop_url H q ≡ some (q, none)))
          ⊎ ((rest : List UrlItem) × (x : UrlItem) × (pop_url H q
                ≡ some (record q { items = rest }, some x))
              × (length l ≡ suc (length rest))
              × (count_by (λ u d. ltb d x.depth) l ≡ 0)))
  unfolding pop_url
  pop_url_at [] seen max_size h = inl (refl, refl)
  pop_url_at (y ∷ l) seen max_size h =
      let (rest, x, e) = H.pop-some (y ∷ l) h (omega arith) in
      inr
        (rest, x, rw (pop_url, e), H.length-pop (y ∷ l) rest x h e, H.pop-least (y ∷ l) rest x h e)

  -- On a heap `PopURL` never panics. Either the queue is empty and it returns nothing, or it removes
  -- and returns one item, no queued item having a lesser depth; `seen` and the bound stay.
  pub pop_url_lem :
      (q : PriorityQueue)
      → H.IsHeap q.items
      → ((q.items ≡ []) × (pop_url H q ≡ some (q, none)))
        ⊎ ((rest : List UrlItem) × (x : UrlItem) × (pop_url H q
              ≡ some (record q { items = rest }, some x))
            × (length q.items ≡ suc (length rest))
            × (count_by (λ u d. ltb d x.depth) q.items ≡ 0))
  pop_url_lem q h = pop_url_at q.items q.seen q.max_size h

  -- `PushURL` accepts a URL exactly when it was not seen and the queue is below its bound. Then it
  -- is seen and one item longer; otherwise nothing changes.
  pub push_url_lem :
      (q : PriorityQueue) (url : String) (depth : ℕ)
      → ((has_seen url q ≡ false)
          × (int_leb q.max_size (pos (size q)) ≡ false)
          × ((push_url H url depth q).1 ≡ true)
          × (has_seen url (push_url H url depth q).0 ≡ true)
          × (size (push_url H url depth q).0 ≡ size q + 1))
        ⊎ (((has_seen url q ≡ true) ⊎ (int_leb q.max_size (pos (size q)) ≡ true))
            × (push_url H url depth q ≡ (q, false)))
  unfolding push_url has_seen size
  push_url_lem q url depth = ground (
    arith,
    member-add url url q.seen,
    eq_iff url url,
    H.length-push (record { url = url; depth = depth; index = pos 0 }) q.items,
  )

  -- What is seen stays seen, whatever is pushed or marked.
  pub seen_kept :
      (q : PriorityQueue) (url u : String) (depth : ℕ)
      → has_seen u q ≡ true
      → (has_seen u (push_url H url depth q).0 ≡ true) × (has_seen u (mark_seen url q) ≡ true)
  unfolding push_url has_seen mark_seen
  seen_kept q url u depth h = ground (arith, member-add url u q.seen)

  -- A queue that is within a positive bound stays within it.
  pub push_url-bounded :
      (q : PriorityQueue) (url : String) (depth n : ℕ)
      → q.max_size ≡ pos n
      → size q ≤ n
      → size (push_url H url depth q).0 ≤ n
  unfolding push_url size
  push_url-bounded q url depth n e h =
      ground (arith, H.length-push (record { url = url; depth = depth; index = pos 0 }) q.items)

  -- A snapshot loaded into any queue gives a heap of as many items of each URL and depth, and the
  -- same seen URLs; the bound is that of the queue it is loaded into.
  pub load_from_checkpoint-snapshot :
      (q r : PriorityQueue)
      → (let s = load_from_checkpoint H (snapshot q).0 (snapshot q).1 r in
          H.IsHeap s.items
          × ((p : String → ℕ → Bool) → count_by p s.items ≡ count_by p q.items)
          × ((u : String) → has_seen u s ≡ has_seen u q)
          × (s.max_size ≡ r.max_size))
  unfolding load_from_checkpoint snapshot has_seen
  load_from_checkpoint-snapshot q r =
      (H.init-IsHeap q.items, λ p. H.count-init p q.items, λ u. refl, refl)
