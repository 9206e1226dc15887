-- ===== src/Crawler/Dispatch/Limits.antt =====
-- internal/crawler/start.go: how many URLs of a host are dispatched, and how deep they lie.
use Prim.Native.String.{String}
use text.Mathlib.Text.{◌==◌}
use text.Mathlib.TextEquality.{eq_iff}
use omegacrawl.Base.{
  ℕ, suc, ◌+◌, ◌≤◌, ◌≡◌, refl, true, false, List, [], ◌∷◌, none, some, if◌then◌else◌, get_elem?,
  set, arith, Option-cases, inl, inr,
}
use omegacrawl.Base.Int.{pos}
use omegacrawl.Base.Sums.{total, total-snoc, total-set}
use omegacrawl.Queue.Item.{UrlItem, Heap}
use omegacrawl.Queue.Priority.{PriorityQueue, pop_url}
use omegacrawl.Crawler.Dispatch.State.{
  Position, at_top, at_pause, in_pause, at_limit, at_pop, at_idle, in_idle, ended, took,
  awaits_asset_slot, awaits_host_slot, holds_host_slot, awaits_page_slot, Phase, starting, running,
  host_freed, slot_freed, inactive, gone, Worker, Settings, System, start_crawl,
}
use omegacrawl.Crawler.Dispatch.Loop.{
  Answers, take_item, pop_step, route_step, spawn, asset_slot_step, host_slot_step, admit_step,
  page_slot_step, dispatch_at, dispatch,
}
use omegacrawl.Crawler.Dispatch.System.{
  Event, dispatches, works, links, pause, clear_pause, send_resume, cancel, work_in, work, link_in,
  link, step, run,
}

module _ (H : Heap) (c : Settings) where
  -- A goroutine for a URL of the host, also one that is gone.
  abbrev pub of_host : String → Worker → ℕ
  of_host h w = if c.get_host w.item.url == h then 1 else 0

  abbrev pub taken_at : String → Position → ℕ
  taken_at h (took item) = if c.get_host item.url == h then 1 else 0
  taken_at h (awaits_asset_slot item) = if c.get_host item.url == h then 1 else 0
  taken_at h (awaits_host_slot item) = if c.get_host item.url == h then 1 else 0
  taken_at h (holds_host_slot item) = if c.get_host item.url == h then 1 else 0
  taken_at h (awaits_page_slot item) = if c.get_host item.url == h then 1 else 0
  taken_at h _ = 0

  -- The URLs of the host that were dispatched or are about to be were counted, and the count is
  -- within the limit.
  pub record IsLimited (h : String) (n : ℕ) (s : System) : Type 0 where
    pub counted : taken_at h s.position + total (of_host h) s.workers ≤ s.host_url_count h
    pub limited : s.host_url_count h ≤ n

  take-IsLimited :
      (h : String) (n : ℕ) (item : UrlItem) (s : System)
      → c.max_urls_per_host ≡ pos (suc n)
      → s.position ≡ at_pop
      → IsLimited h (suc n) s
      → IsLimited h (suc n) (take_item H c item s)
  unfolding take_item
  take-IsLimited h n item s m e v = ground (arith, eq_iff (c.get_host item.url) h)

  pop-IsLimited :
      (h : String) (n : ℕ) (s : System)
      → c.max_urls_per_host ≡ pos (suc n)
      → s.position ≡ at_pop
      → IsLimited h (suc n) s
      → IsLimited h (suc n) (pop_step H c s)
  unfolding pop_step
  pop-IsLimited h n s m e v = elim (Option-cases (pop_url H s.queue)) [
    | inl x ↦ rw (pop_step, x) (ground arith)
    | inr ((q, none), x) ↦ rw (pop_step, x) (ground arith)
    | inr ((q, some item), x) ↦
        rw (pop_step, x) (take-IsLimited h n item (record s { queue = q }) m e (ground arith))
  ]

  dispatch-IsLimited :
      (h : String) (n : ℕ) (p : Position) (a : Answers) (s : System)
      → c.max_urls_per_host ≡ pos (suc n)
      → s.position ≡ p
      → IsLimited h (suc n) s
      → IsLimited h (suc n) (dispatch_at H c p a s)
  unfolding dispatch_at route_step asset_slot_step host_slot_step admit_step page_slot_step spawn
  dispatch-IsLimited h n at_top a s m e v = ground arith
  dispatch-IsLimited h n at_pause a s m e v = ground arith
  dispatch-IsLimited h n in_pause a s m e v = ground arith
  dispatch-IsLimited h n at_limit a s m e v = ground arith
  dispatch-IsLimited h n at_pop a s m e v = pop-IsLimited h n s m e v
  dispatch-IsLimited h n at_idle a s m e v = ground arith
  dispatch-IsLimited h n in_idle a s m e v = ground arith
  dispatch-IsLimited h n (took item) a s m e v = ground arith
  dispatch-IsLimited h n (awaits_asset_slot item) a s m e v =
      let w : Worker = record { item = item; is_page = false; phase = starting } in
      ground (arith, total-snoc (of_host h) s.workers w)
  dispatch-IsLimited h n (awaits_host_slot item) a s m e v = ground arith
  dispatch-IsLimited h n (holds_host_slot item) a s m e v = ground arith
  dispatch-IsLimited h n (awaits_page_slot item) a s m e v =
      let w : Worker = record { item = item; is_page = true; phase = starting } in
      ground (arith, total-snoc (of_host h) s.workers w)
  dispatch-IsLimited h n ended a s m e v = v

  work-IsLimited :
      (h : String) (n : ℕ) (p : Phase) (i : ℕ) (w : Worker) (s : System)
      → get_elem? s.workers i ≡ some w
      → IsLimited h n s
      → IsLimited h n (work_in H c p i w s)
  unfolding work_in
  work-IsLimited h n p i w s g v =
      let m : (q : Phase)
          → total (of_host h) (set s.workers i (record w { phase = q })) + of_host h w
            ≡ total (of_host h) s.workers + of_host h w =
        λ q. total-set (of_host h) s.workers i w (record w { phase = q }) g in
      ground (arith, m running, m host_freed, m slot_freed, m inactive, m gone)

  works-IsLimited :
      (h : String) (n i : ℕ) (s : System) → IsLimited h n s → IsLimited h n (work H c i s)
  unfolding work
  works-IsLimited h n i s v = elim (Option-cases (get_elem? s.workers i)) [
    | inl x ↦ rw (x, work) v
    | inr (w, x) ↦ rw (work, x) (work-IsLimited h n w.phase i w s x v)
  ]

  step-IsLimited :
      (h : String) (n : ℕ) (e : Event) (s : System)
      → c.max_urls_per_host ≡ pos (suc n)
      → IsLimited h (suc n) s
      → IsLimited h (suc n) (step H c e s)
  unfolding step dispatch link link_in
  step-IsLimited h n (dispatches a) s m v = dispatch-IsLimited h n s.position a s m refl v
  step-IsLimited h n (works i) s m v = works-IsLimited h (suc n) i s v
  step-IsLimited h n (links i url) s m v = ground arith
  step-IsLimited h n pause s m v = ground arith
  step-IsLimited h n clear_pause s m v = ground arith
  step-IsLimited h n send_resume s m v = ground arith
  step-IsLimited h n cancel s m v = ground arith

  runs-IsLimited :
      (h : String) (n : ℕ) (es : List Event) (s : System)
      → c.max_urls_per_host ≡ pos (suc n)
      → IsLimited h (suc n) s
      → IsLimited h (suc n) (run H c es s)
  unfolding run
  runs-IsLimited h n [] s m v = v
  runs-IsLimited h n (e ∷ es) s m v =
      runs-IsLimited h n es (step H c e s) m (step-IsLimited h n e s m v)

  -- With a positive limit of URLs for a host, no interleaving of a crawl from its start spawns more
  -- goroutines for URLs of one host than the limit.
  pub spawned-le-limit :
      (h : String) (n : ℕ) (es : List Event) (q : PriorityQueue)
      → c.max_urls_per_host ≡ pos (suc n)
      → total (of_host h) (run H c es (start_crawl q)).workers ≤ suc n
  unfolding total
  spawned-le-limit h n es q m =
      let v = runs-IsLimited h n es (start_crawl q) m (ground arith) in
      omega (arith, v.counted, v.limited)
