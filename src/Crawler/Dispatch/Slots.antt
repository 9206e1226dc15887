-- ===== src/Crawler/Dispatch/Slots.antt =====
-- internal/crawler/start.go: the counters and semaphores of the dispatch loop agree with the
-- goroutines that hold them, in every interleaving.
use Prim.Native.String.{String}
use text.Mathlib.Text.{◌==◌}
use text.Mathlib.TextEquality.{eq_iff}
use omegacrawl.Base.{
  ℕ, ◌+◌, ◌≤◌, ◌≡◌, refl, true, false, ◌&&◌, List, [], ◌∷◌, none, some, if◌then◌else◌, get_elem?,
  set, arith, Option-cases, inl, inr,
}
use omegacrawl.Base.Sums.{total, total-snoc, total-set}
use omegacrawl.Queue.Item.{UrlItem, Heap}
use omegacrawl.Queue.Priority.{PriorityQueue, pop_url}
use omegacrawl.Crawler.Dispatch.State.{
  Position, at_top, at_pause, in_pause, at_limit, at_pop, at_idle, in_idle, ended, took,
  awaits_asset_slot, awaits_host_slot, holds_host_slot, awaits_page_slot, Phase, starting, running,
  host_freed, slot_freed, inactive, gone, Worker, Settings, host_slots, System, start_crawl,
}
use omegacrawl.Crawler.Dispatch.Loop.{
  Answers, take_item, pop_step, route_step, spawn, asset_slot_step, host_slot_step, admit_step,
  page_slot_step, dispatch_at, dispatch,
}
use omegacrawl.Crawler.Dispatch.System.{
  Event, dispatches, works, links, pause, clear_pause, send_resume, cancel, work_in, work, link_in,
  link, step, run,
}

-- What a goroutine in a phase still has: its host's slot, its page or asset slot, its share of
-- `activePages`, its share of `wg`.
abbrev with_host : Phase → ℕ
with_host starting = 1
with_host running = 1
with_host _ = 0

abbrev with_page_slot : Phase → ℕ
with_page_slot starting = 1
with_page_slot running = 1
with_page_slot host_freed = 1
with_page_slot _ = 0

abbrev active_in : Phase → ℕ
active_in starting = 1
active_in running = 1
active_in host_freed = 1
active_in slot_freed = 1
active_in _ = 0

abbrev waited_in : Phase → ℕ
waited_in gone = 0
waited_in _ = 1

abbrev page_slot : Worker → ℕ
page_slot w = if w.is_page then with_page_slot w.phase else 0

abbrev asset_slot : Worker → ℕ
asset_slot w = if w.is_page then 0 else with_host w.phase

-- Only a page frees its host's slot.
abbrev is_freed : Phase → ℕ
is_freed host_freed = 1
is_freed _ = 0

abbrev stray : Worker → ℕ
stray w = if w.is_page then 0 else is_freed w.phase

module _ (H : Heap) (c : Settings) where
  abbrev host_slot : String → Worker → ℕ
  host_slot h w = if w.is_page && c.get_host w.item.url == h then with_host w.phase else 0

  -- What the loop itself holds at a position.
  abbrev held_at : String → Position → ℕ
  held_at h (holds_host_slot item) = if c.get_host item.url == h then 1 else 0
  held_at h (awaits_page_slot item) = if c.get_host item.url == h then 1 else 0
  held_at h _ = 0

  abbrev waits_at : Position → ℕ
  waits_at (awaits_asset_slot item) = 1
  waits_at (awaits_page_slot item) = 1
  waits_at _ = 0

  -- Each counter is the number of holders, and within its capacity.
  pub record IsAccounted (h : String) (s : System) : Type 0 where
    pub pages : s.semaphore ≡ total page_slot s.workers
    pub assets : s.asset_sem ≡ total asset_slot s.workers
    pub host : s.host_semaphores h ≡ held_at h s.position + total (host_slot h) s.workers
    pub active : s.active_pages ≡ total (λ w. active_in w.phase) s.workers
    pub waiting : s.wg ≡ waits_at s.position + total (λ w. waited_in w.phase) s.workers
    pub page_bound : s.semaphore ≤ c.page_slots
    pub asset_bound : s.asset_sem ≤ c.asset_slots
    pub none_stray : total stray s.workers ≡ 0
    pub host_bound : s.host_semaphores h ≤ host_slots

  take-IsAccounted :
      (h : String) (item : UrlItem) (s : System)
      → s.position ≡ at_pop
      → IsAccounted h s
      → IsAccounted h (take_item H c item s)
  unfolding take_item
  take-IsAccounted h item s e v = ground arith

  pop-IsAccounted :
      (h : String) (s : System)
      → s.position ≡ at_pop
      → IsAccounted h s
      → IsAccounted h (pop_step H c s)
  unfolding pop_step
  pop-IsAccounted h s e v = elim (Option-cases (pop_url H s.queue)) [
    | inl n ↦ rw (pop_step, n) (ground arith)
    | inr ((q, none), n) ↦ rw (pop_step, n) (ground arith)
    | inr ((q, some item), n) ↦
        rw (pop_step, n) (take-IsAccounted h item (record s { queue = q }) e (ground arith))
  ]

  route-IsAccounted :
      (h : String) (item : UrlItem) (a : Answers) (s : System)
      → s.position ≡ took item
      → IsAccounted h s
      → IsAccounted h (route_step H c item a s)
  unfolding route_step
  route-IsAccounted h item a s e v = ground arith

  asset-IsAccounted :
      (h : String) (item : UrlItem) (a : Answers) (s : System)
      → s.position ≡ awaits_asset_slot item
      → IsAccounted h s
      → IsAccounted h (asset_slot_step H c item a s)
  unfolding asset_slot_step spawn
  asset-IsAccounted h item a s e v =
      let w : Worker = record { item = item; is_page = false; phase = starting } in
      ground (
        arith,
        total-snoc page_slot s.workers w,
        total-snoc asset_slot s.workers w,
        total-snoc stray s.workers w,
        total-snoc (host_slot h) s.workers w,
        total-snoc (λ (x : Worker). active_in x.phase) s.workers w,
        total-snoc (λ (x : Worker). waited_in x.phase) s.workers w,
      )

  host-IsAccounted :
      (h : String) (item : UrlItem) (a : Answers) (s : System)
      → s.position ≡ awaits_host_slot item
      → IsAccounted h s
      → IsAccounted h (host_slot_step H c item a s)
  unfolding host_slot_step
  host-IsAccounted h item a s e v = ground (arith, eq_iff (c.get_host item.url) h)

  admit-IsAccounted :
      (h : String) (item : UrlItem) (a : Answers) (s : System)
      → s.position ≡ holds_host_slot item
      → IsAccounted h s
      → IsAccounted h (admit_step H c item a s)
  unfolding admit_step
  admit-IsAccounted h item a s e v = ground (arith, eq_iff (c.get_host item.url) h)

  page-IsAccounted :
      (h : String) (item : UrlItem) (a : Answers) (s : System)
      → s.position ≡ awaits_page_slot item
      → IsAccounted h s
      → IsAccounted h (page_slot_step H c item a s)
  unfolding page_slot_step spawn
  page-IsAccounted h item a s e v =
      let w : Worker = record { item = item; is_page = true; phase = starting } in
      ground (
        arith,
        eq_iff (c.get_host item.url) h,
        total-snoc page_slot s.workers w,
        total-snoc asset_slot s.workers w,
        total-snoc stray s.workers w,
        total-snoc (host_slot h) s.workers w,
        total-snoc (λ (x : Worker). active_in x.phase) s.workers w,
        total-snoc (λ (x : Worker). waited_in x.phase) s.workers w,
      )

  dispatch-IsAccounted :
      (h : String) (p : Position) (a : Answers) (s : System)
      → s.position ≡ p
      → IsAccounted h s
      → IsAccounted h (dispatch_at H c p a s)
  unfolding dispatch_at
  dispatch-IsAccounted h at_top a s e v = ground arith
  dispatch-IsAccounted h at_pause a s e v = ground arith
  dispatch-IsAccounted h in_pause a s e v = ground arith
  dispatch-IsAccounted h at_limit a s e v = ground arith
  dispatch-IsAccounted h at_pop a s e v = pop-IsAccounted h s e v
  dispatch-IsAccounted h at_idle a s e v = ground arith
  dispatch-IsAccounted h in_idle a s e v = ground arith
  dispatch-IsAccounted h (took item) a s e v = route-IsAccounted h item a s e v
  dispatch-IsAccounted h (awaits_asset_slot item) a s e v = asset-IsAccounted h item a s e v
  dispatch-IsAccounted h (awaits_host_slot item) a s e v = host-IsAccounted h item a s e v
  dispatch-IsAccounted h (holds_host_slot item) a s e v = admit-IsAccounted h item a s e v
  dispatch-IsAccounted h (awaits_page_slot item) a s e v = page-IsAccounted h item a s e v
  dispatch-IsAccounted h ended a s e v = v

  -- What each sum becomes as goroutine `i` takes another phase.
  record IsMoved (h : String) (i : ℕ) (w : Worker) (q : Phase) (l : List Worker) : Type 0 where
    pages :
        total page_slot (set l i (record w { phase = q })) + page_slot w
        ≡ total page_slot l + page_slot (record w { phase = q })
    assets :
        total asset_slot (set l i (record w { phase = q })) + asset_slot w
        ≡ total asset_slot l + asset_slot (record w { phase = q })
    host :
        total (host_slot h) (set l i (record w { phase = q })) + host_slot h w
        ≡ total (host_slot h) l + host_slot h (record w { phase = q })
    strays :
        total stray (set l i (record w { phase = q })) + stray w
        ≡ total stray l + stray (record w { phase = q })
    active :
        total (λ x. active_in x.phase) (set l i (record w { phase = q })) + active_in w.phase
        ≡ total (λ x. active_in x.phase) l + active_in q
    waiting :
        total (λ x. waited_in x.phase) (set l i (record w { phase = q })) + waited_in w.phase
        ≡ total (λ x. waited_in x.phase) l + waited_in q

  moved :
      (h : String) (i : ℕ) (w : Worker) (q : Phase) (l : List Worker)
      → get_elem? l i ≡ some w
      → IsMoved h i w q l
  moved h i w q l g = record {
    pages = total-set page_slot l i w (record w { phase = q }) g;
    assets = total-set asset_slot l i w (record w { phase = q }) g;
    host = total-set (host_slot h) l i w (record w { phase = q }) g;
    strays = total-set stray l i w (record w { phase = q }) g;
    active = total-set (λ x. active_in x.phase) l i w (record w { phase = q }) g;
    waiting = total-set (λ x. waited_in x.phase) l i w (record w { phase = q }) g;
  }

  -- A goroutine in a phase moves on to the next.
  work-IsAccounted :
      (h : String) (p : Phase) (i : ℕ) (w : Worker) (s : System)
      → w.phase ≡ p
      → get_elem? s.workers i ≡ some w
      → IsAccounted h s
      → IsAccounted h (work_in H c p i w s)
  unfolding work_in
  work-IsAccounted h starting i w s e g v = let m = moved h i w running s.workers g in ground arith
  work-IsAccounted h running i w s e g v =
      let m = moved h i w host_freed s.workers g in
      let m' = moved h i w slot_freed s.workers g in
      ground (arith, eq_iff (c.get_host w.item.url) h)
  work-IsAccounted h host_freed i w s e g v =
      let m = moved h i w slot_freed s.workers g in ground arith
  work-IsAccounted h slot_freed i w s e g v =
      let m = moved h i w inactive s.workers g in ground arith
  work-IsAccounted h inactive i w s e g v = let m = moved h i w gone s.workers g in ground arith
  work-IsAccounted h gone i w s e g v = v

  works-IsAccounted :
      (h : String) (i : ℕ) (s : System) → IsAccounted h s → IsAccounted h (work H c i s)
  unfolding work
  works-IsAccounted h i s v = elim (Option-cases (get_elem? s.workers i)) [
    | inl n ↦ rw (n, work) v
    | inr (w, n) ↦ rw (work, n) (work-IsAccounted h w.phase i w s refl n v)
  ]

  step-IsAccounted :
      (h : String) (e : Event) (s : System) → IsAccounted h s → IsAccounted h (step H c e s)
  unfolding step dispatch link link_in
  step-IsAccounted h (dispatches a) s v = dispatch-IsAccounted h s.position a s refl v
  step-IsAccounted h (works i) s v = works-IsAccounted h i s v
  step-IsAccounted h (links i url) s v = ground arith
  step-IsAccounted h pause s v = ground arith
  step-IsAccounted h clear_pause s v = ground arith
  step-IsAccounted h send_resume s v = ground arith
  step-IsAccounted h cancel s v = ground arith

  runs-IsAccounted :
      (h : String) (es : List Event) (s : System) → IsAccounted h s → IsAccounted h (run H c es s)
  unfolding run
  runs-IsAccounted h [] s v = v
  runs-IsAccounted h (e ∷ es) s v = runs-IsAccounted h es (step H c e s) (step-IsAccounted h e s v)

  -- In every interleaving of a crawl from its start, for each host: the tokens taken of the page and
  -- asset semaphores, of the host's semaphore, `activePages` and the count of `wg` are the numbers
  -- of goroutines that hold them (and of the loop's own share), and no semaphore is overfull.
  pub run-IsAccounted :
      (h : String) (es : List Event) (q : PriorityQueue)
      → IsAccounted h (run H c es (start_crawl q))
  unfolding total
  run-IsAccounted h es q = runs-IsAccounted h es (start_crawl q) (ground arith)
