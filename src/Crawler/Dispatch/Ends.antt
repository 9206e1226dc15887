-- ===== src/Crawler/Dispatch/Ends.antt =====
-- internal/crawler/start.go: the wake-up of the paused loop.
use omegacrawl.Base.{
  ℕ, ◌<◌, ◌≡◌, ◌⊎◌, refl, true, false, List, [], ◌∷◌, get_elem?, arith, Option-cases, inl, inr,
}
use omegacrawl.Queue.Item.{Heap}
use omegacrawl.Queue.Priority.{PriorityQueue}
use omegacrawl.Crawler.Dispatch.State.{
  Position, at_top, at_pause, in_pause, at_limit, at_pop, at_idle, in_idle, ended, took,
  awaits_asset_slot, awaits_host_slot, holds_host_slot, awaits_page_slot, Phase, starting, running,
  host_freed, slot_freed, inactive, gone, Worker, Settings, System, start_crawl,
}
use omegacrawl.Crawler.Dispatch.Loop.{
  Answers, take_item, pop_step, route_step, spawn, asset_slot_step, host_slot_step, admit_step,
  page_slot_step, dispatch_at, dispatch,
}
use omegacrawl.Crawler.Dispatch.System.{
  Event, dispatches, works, links, pause, clear_pause, send_resume, cancel, work_in, work, link_in,
  link, step, run,
}

module _ (H : Heap) (c : Settings) where
  -- A loop that waits in a pause that is over has a signal, or one is about to be sent.
  abbrev pub IsWoken : System → Type 0
  IsWoken s = s.position ≡ in_pause → s.paused ≡ false → (s.resume_signal ≡ true) ⊎ (0 < s.resuming)

  dispatch-IsWoken :
      (p : Position) (a : Answers) (s : System)
      → s.position ≡ p
      → IsWoken s
      → IsWoken (dispatch_at H c p a s)
  unfolding dispatch_at route_step asset_slot_step host_slot_step admit_step page_slot_step spawn
      pop_step take_item
  dispatch-IsWoken at_top a s e v = ground arith
  dispatch-IsWoken at_pause a s e v = ground arith
  dispatch-IsWoken in_pause a s e v = ground arith
  dispatch-IsWoken at_limit a s e v = ground arith
  dispatch-IsWoken at_pop a s e v = ground arith
  dispatch-IsWoken at_idle a s e v = ground arith
  dispatch-IsWoken in_idle a s e v = ground arith
  dispatch-IsWoken (took item) a s e v = ground arith
  dispatch-IsWoken (awaits_asset_slot item) a s e v = ground arith
  dispatch-IsWoken (awaits_host_slot item) a s e v = ground arith
  dispatch-IsWoken (holds_host_slot item) a s e v = ground arith
  dispatch-IsWoken (awaits_page_slot item) a s e v = ground arith
  dispatch-IsWoken ended a s e v = ground arith

  work-IsWoken :
      (p : Phase) (i : ℕ) (w : Worker) (s : System) → IsWoken s → IsWoken (work_in H c p i w s)
  unfolding work_in
  work-IsWoken starting i w s v = v
  work-IsWoken running i w s v = ground arith
  work-IsWoken host_freed i w s v = v
  work-IsWoken slot_freed i w s v = v
  work-IsWoken inactive i w s v = v
  work-IsWoken gone i w s v = v

  step-IsWoken : (e : Event) (s : System) → IsWoken s → IsWoken (step H c e s)
  unfolding step dispatch link link_in work
  step-IsWoken (dispatches a) s v = dispatch-IsWoken s.position a s refl v
  step-IsWoken (works i) s v = elim (Option-cases (get_elem? s.workers i)) [
    | inl n ↦ ground arith
    | inr (w, n) ↦ ground (arith, work-IsWoken w.phase i w s v)
  ]
  step-IsWoken (links i url) s v = ground arith
  step-IsWoken pause s v = ground arith
  step-IsWoken clear_pause s v = ground arith
  step-IsWoken send_resume s v = ground arith
  step-IsWoken cancel s v = ground arith

  run-IsWoken : (es : List Event) (s : System) → IsWoken s → IsWoken (run H c es s)
  unfolding run
  run-IsWoken [] s v = v
  run-IsWoken (e ∷ es) s v = run-IsWoken es (step H c e s) (step-IsWoken e s v)

  resumes :
      (a b : Answers) (s : System)
      → IsWoken s
      → s.position ≡ in_pause
      → s.paused ≡ false
      → s.cancelled ≡ false
      → (run H c (send_resume ∷ dispatches a ∷ dispatches b ∷ []) s).position ≡ at_limit
  unfolding run step dispatch dispatch_at
  resumes a b s v p u k = ground arith

  -- In no interleaving is a wake-up lost: where the loop waits in a pause that is over and the crawl
  -- is not cancelled, two steps of the loop, after the pending send of `Resume` if there is one,
  -- take it out of the pause.
  pub resume_wakes :
      (es : List Event) (q : PriorityQueue) (a b : Answers)
      → (run H c es (start_crawl q)).position ≡ in_pause
      → (run H c es (start_crawl q)).paused ≡ false
      → (run H c es (start_crawl q)).cancelled ≡ false
      → (run H c
          (send_resume ∷ dispatches a ∷ dispatches b ∷ [])
          (run H c es (start_crawl q))).position
        ≡ at_limit
  resume_wakes es q a b p u k =
      resumes a b (run H c es (start_crawl q)) (run-IsWoken es (start_crawl q) (λ e. cc)) p u k
