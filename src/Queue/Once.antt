-- ===== src/Queue/Once.antt =====
-- internal/queue/ops.go: what the crawler relies on of the queue. No URL is handed out twice, the
-- queue stays within its size, and items come out by depth.
use Prim.Native.String.{String}
use text.Mathlib.Text.{◌==◌}
use text.Mathlib.TextEquality.{eq_iff}
use omegacrawl.Base.{
  ℕ, ◌+◌, ◌≤◌, ◌<◌, ◌≡◌, true, List, [], ◌∷◌, some, if◌then◌else◌, length, arith, Bool-cases, inl,
  inr,
}
use omegacrawl.Base.Int.{pos, int_leb}
use omegacrawl.Base.Dict.{member, member-add}
use omegacrawl.Queue.Item.{UrlItem, Heap, count_by}
use omegacrawl.Queue.Priority.{PriorityQueue, mark_seen, push_url, pop_url}

-- How many queued items have the URL.
abbrev pub queued : String → List UrlItem → ℕ
queued u = count_by (λ v d. v == u)

-- How often the URL was handed out.
abbrev pub handed : String → List String → ℕ
handed u [] = 0
handed u (v ∷ vs) = (if v == u then 1 else 0) + handed u vs

module _ (H : Heap) where
  -- The calls of the crawler on a queue whose items are distinct and seen (a new one, or one loaded
  -- from such a checkpoint), after which `out` are the URLs popped so far.
  pub data Reached : PriorityQueue → List String → Type 0 where
    start :
        {q : PriorityQueue}
        → H.IsHeap q.items
        → ((u : String) → queued u q.items ≤ 1)
        → ((u : String) → 0 < queued u q.items → member u q.seen ≡ true)
        → Reached q []
    pushed :
        {q : PriorityQueue} {out : List String}
        → Reached q out
        → (url : String) (depth : ℕ) → Reached (push_url H url depth q).0 out
    marked :
        {q : PriorityQueue} {out : List String}
        → Reached q out
        → (url : String) → Reached (mark_seen url q) out
    popped :
        {q q' : PriorityQueue} {x : UrlItem} {out : List String}
        → Reached q out
        → pop_url H q ≡ some (q', some x)
        → Reached q' (x.url ∷ out)

  pub record IsOnce (q : PriorityQueue) (out : List String) : Type 0 where
    pub heap : H.IsHeap q.items
    pub once : (u : String) → queued u q.items + handed u out ≤ 1
    pub known : (u : String) → 0 < queued u q.items + handed u out → member u q.seen ≡ true

  push-once :
      (q : PriorityQueue) (out : List String) (url : String) (depth : ℕ) (u : String)
      → IsOnce q out
      → queued u (push_url H url depth q).0.items + handed u out ≤ 1
  unfolding push_url count_by
  push-once q out url depth u v = ground (
    arith,
    v.once u,
    v.known u,
    H.count-push (λ w d. w == u) (record { url = url; depth = depth; index = pos 0 }) q.items,
    eq_iff url u,
  )

  push-known :
      (q : PriorityQueue) (out : List String) (url : String) (depth : ℕ) (u : String)
      → IsOnce q out
      → 0 < queued u (push_url H url depth q).0.items + handed u out
      → member u (push_url H url depth q).0.seen ≡ true
  unfolding push_url count_by
  push-known q out url depth u v = ground (
    arith,
    v.known u,
    H.count-push (λ w d. w == u) (record { url = url; depth = depth; index = pos 0 }) q.items,
    member-add url u q.seen,
    eq_iff url u,
  )

  push-heap :
      (q : PriorityQueue) (url : String) (depth : ℕ)
      → H.IsHeap q.items
      → H.IsHeap (push_url H url depth q).0.items
  unfolding push_url
  push-heap q url depth h = elim (Bool-cases (member url q.seen)) [
    | inl e ↦ rw e h
    | inr e ↦ elim (Bool-cases (int_leb q.max_size (pos (length q.items)))) [
      | inl f ↦ rw (push_url, e, f) h
      | inr f ↦ rw (push_url, e, f) (H.push-IsHeap _ q.items h)
    ]
  ]

  marked-IsOnce :
      (q : PriorityQueue) (out : List String) (url : String)
      → IsOnce q out
      → IsOnce (mark_seen url q) out
  unfolding mark_seen
  marked-IsOnce q out url v = record {
    heap = v.heap;
    once = v.once;
    known = λ u k. ground (arith, member-add url u q.seen, v.known u);
  }

  pop-parts :
      (q q' : PriorityQueue) (x : UrlItem)
      → pop_url H q ≡ some (q', some x)
      → (H.pop q.items ≡ some (q'.items, x)) × (q'.seen ≡ q.seen) × (q'.max_size ≡ q.max_size)
  unfolding pop_url
  pop-parts q q' x e = ground arith

  queued-pop :
      (q q' : PriorityQueue) (x : UrlItem) (u : String)
      → H.IsHeap q.items
      → H.pop q.items ≡ some (q'.items, x)
      → queued u q.items ≡ (if x.url == u then 1 else 0) + queued u q'.items
  unfolding count_by
  queued-pop q q' x u h e = H.count-pop (λ w d. w == u) q.items q'.items x h e

  Reached-IsOnce : {q : PriorityQueue} {out : List String} → Reached q out → IsOnce q out
  Reached-IsOnce (start h o k) = record {
    heap = h;
    once = λ u. omega (arith, o u);
    known = λ u p. k u (omega arith);
  }
  Reached-IsOnce (pushed {q} {out} r url depth) =
      let v = Reached-IsOnce r in
      record {
        heap = push-heap q url depth v.heap;
        once = λ u. push-once q out url depth u v;
        known = λ u. push-known q out url depth u v;
      }
  Reached-IsOnce (marked {q} {out} r url) = marked-IsOnce q out url (Reached-IsOnce r)
  Reached-IsOnce (popped {q} {q'} {x} {out} r e) =
      let v = Reached-IsOnce r in
      let (p, s, m) = pop-parts q q' x e in
      record {
        heap = H.pop-IsHeap q.items q'.items x v.heap p;
        once = λ u. omega (arith, queued-pop q q' x u v.heap p, v.once u);
        known = λ u k. rw s (v.known u (omega (arith, queued-pop q q' x u v.heap p)));
      }

  -- Over any calls of `PushURL`, `MarkSeen` and `PopURL` on a queue whose items are at first
  -- distinct and seen, a URL that was never seen is neither
  -- queued nor handed out; one that was seen is so at most once: queued, or handed out and never
  -- queued again.
  pub popped_once :
      {q : PriorityQueue} {out : List String}
      → Reached q out
      → (u : String) → queued u q.items + handed u out ≤ (if member u q.seen then 1 else 0)
  popped_once r u =
      let v = Reached-IsOnce r in let o = v.once u in let k = v.known u in ground arith
