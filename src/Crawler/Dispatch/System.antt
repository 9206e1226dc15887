-- ===== src/Crawler/Dispatch/System.antt =====
-- internal/crawler/start.go, status.go, do_crawl.go: the goroutines of pages and assets, `Pause`,
-- `Resume` and cancellation, and runs that interleave them with the dispatch loop in any order.
use Prim.Native.String.{String}
use omegacrawl.Base.{
  ℕ, zero, suc, ◌+◌, ◌-◌, true, false, List, [], ◌∷◌, none, some, if◌then◌else◌, get_elem?, set,
}
use omegacrawl.Queue.Item.{Heap}
use omegacrawl.Queue.Priority.{push_url}
use omegacrawl.Crawler.Dispatch.State.{
  Phase, starting, running, host_freed, slot_freed, inactive, gone, Worker, Settings, System,
}
use omegacrawl.Crawler.Dispatch.Loop.{Answers, dispatch, host_of, free_host}

-- What can happen next: a step of the loop, the next step of a goroutine, a link that the page of a
-- goroutine queues, and the two halves of `Resume`.
pub data Event : Type 0 where
  dispatches : Answers → Event
  works : ℕ → Event
  links : ℕ → String → Event
  pause clear_pause send_resume cancel : Event

module _ (H : Heap) (c : Settings) where
  abbrev put_worker : ℕ → Worker → Phase → System → System
  put_worker i w phase s = record s { workers = set s.workers i (record w { phase = phase }) }

  -- The next step of goroutine `i`: `totalURLs.Add(1)`; the crawl ends and the deferred calls give
  -- back the slots, lower `activePages` and call `wg.Done`.
  unfoldable pub work_in : Phase → ℕ → Worker → System → System
  work_in starting i w s = record (put_worker i w running s) { total_urls = s.total_urls + 1 }
  work_in running i w s =
      if w.is_page
      then free_host H c (host_of H c w.item) (put_worker i w host_freed s)
      else record (put_worker i w slot_freed s) { asset_sem = s.asset_sem - 1 }
  work_in host_freed i w s = record (put_worker i w slot_freed s) { semaphore = s.semaphore - 1 }
  work_in slot_freed i w s = record (put_worker i w inactive s) {
    active_pages = s.active_pages - 1;
  }
  work_in inactive i w s = record (put_worker i w gone s) { wg = s.wg - 1 }
  work_in gone i w s = s

  unfoldable pub work : ℕ → System → System
  unfolding work_in
  work i s = elim (get_elem? s.workers i) [ none ↦ s | some w ↦ work_in w.phase i w s ]

  abbrev queue_link : Worker → String → System → System
  queue_link w url s = record s { queue = (push_url H url (w.item.depth + 1) s.queue).0 }

  -- A running page queues a URL one level deeper.
  unfoldable pub link_in : Phase → Worker → String → System → System
  link_in running w url s = if w.is_page then queue_link w url s else s
  link_in _ w url s = s

  unfoldable pub link : ℕ → String → System → System
  unfolding link_in
  link i url s = elim (get_elem? s.workers i) [ none ↦ s | some w ↦ link_in w.phase w url s ]

  unfoldable pub step : Event → System → System
  unfolding work link
  step (dispatches a) s = dispatch H c a s
  step (works i) s = work i s
  step (links i url) s = link i url s
  step pause s = record s { paused = true }
  step clear_pause s =
      if s.paused then record s { paused = false; resuming = s.resuming + 1 } else s
  step send_resume s = elim s.resuming [
    | zero ↦ s
    | suc n ↦ record s { resuming = n; resume_signal = true }
  ]
  step cancel s = record s { cancelled = true }

  unfoldable pub run : List Event → System → System
  unfolding step
  run [] s = s
  run (e ∷ es) s = run es (step e s)
