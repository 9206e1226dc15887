-- ===== src/Crawler/Dispatch/Cancelled.antt =====
-- internal/crawler/start.go: the end of a loop that is cancelled.
use omegacrawl.Base.{
  ℕ, ◌+◌, ◌*◌, ◌∙◌, String, ◌≤◌, ◌<◌, ◌≡◌, ◌⊎◌, refl, true, List, [], ◌∷◌, if◌then◌else◌, get_elem?,
  arith, Option-cases, inl, inr,
}
use omegacrawl.Queue.Item.{Heap}
use omegacrawl.Crawler.Dispatch.State.{
  Position, at_top, at_pause, in_pause, at_limit, at_pop, at_idle, in_idle, ended, took,
  awaits_asset_slot, awaits_host_slot, holds_host_slot, awaits_page_slot, Phase, starting, running,
  host_freed, slot_freed, inactive, gone, Worker, Settings, System,
}
use omegacrawl.Crawler.Dispatch.Loop.{
  Answers, take_item, pop_step, route_step, spawn, asset_slot_step, host_slot_step, admit_step,
  page_slot_step, dispatch_at, dispatch,
}
use omegacrawl.Crawler.Dispatch.System.{
  Event, dispatches, works, links, pause, clear_pause, send_resume, cancel, work_in, work, link_in,
  link, step, run,
}

module _ (H : Heap) (c : Settings) where
  -- How many steps a cancelled loop has left at most.
  rank : Position → ℕ
  rank ended = 0
  rank at_top = 1
  rank in_idle = 2
  rank (awaits_asset_slot item) = 2
  rank (awaits_page_slot item) = 2
  rank at_idle = 3
  rank (holds_host_slot item) = 3
  rank (awaits_host_slot item) = 4
  rank (took item) = 5
  rank at_pop = 6
  rank at_limit = 7
  rank in_pause = 8
  rank at_pause = 9

  left : System → ℕ
  unfolding rank
  left s = rank s.position + (if s.resume_signal then 4 else 0)

  left-le : (s : System) → left s ≤ 13
  unfolding left rank
  left-le s = ground arith

  Nearer : System → System → Type 0
  Nearer s t =
      (t.cancelled ≡ true) × ((s.position ≡ ended) × (t.position ≡ ended) ⊎ (left t < left s))

  dispatch-Nearer :
      (p : Position) (a : Answers) (s : System)
      → s.position ≡ p
      → s.cancelled ≡ true
      → Nearer s (dispatch_at H c p a s)
  unfolding dispatch_at route_step asset_slot_step host_slot_step admit_step page_slot_step spawn
      pop_step take_item left rank Nearer
  dispatch-Nearer at_top a s e v = ground arith
  dispatch-Nearer at_pause a s e v = ground arith
  dispatch-Nearer in_pause a s e v = ground arith
  dispatch-Nearer at_limit a s e v = ground arith
  dispatch-Nearer at_pop a s e v = ground arith
  dispatch-Nearer at_idle a s e v = ground arith
  dispatch-Nearer in_idle a s e v = ground arith
  dispatch-Nearer (took item) a s e v = ground arith
  dispatch-Nearer (awaits_asset_slot item) a s e v = ground arith
  dispatch-Nearer (awaits_host_slot item) a s e v = ground arith
  dispatch-Nearer (holds_host_slot item) a s e v = ground arith
  dispatch-Nearer (awaits_page_slot item) a s e v = ground arith
  dispatch-Nearer ended a s e v = ground arith

  left_none : (s : System) → left s ≤ 0 → s.position ≡ ended
  unfolding left rank
  left_none s h = ground arith

  dispatch-ended :
      (a : Answers) (s : System) → s.position ≡ ended → (dispatch H c a s).position ≡ ended
  unfolding dispatch dispatch_at
  dispatch-ended a s e = ground arith

  -- The steps of the loop, and the sends of `Resume`, among the events.
  unfoldable pub loop_steps : List Event → ℕ
  loop_steps [] = 0
  loop_steps (dispatches a ∷ es) = loop_steps es + 1
  loop_steps (works i ∷ es) = loop_steps es
  loop_steps (links i url ∷ es) = loop_steps es
  loop_steps (pause ∷ es) = loop_steps es
  loop_steps (clear_pause ∷ es) = loop_steps es
  loop_steps (send_resume ∷ es) = loop_steps es
  loop_steps (cancel ∷ es) = loop_steps es

  unfoldable pub resume_sends : List Event → ℕ
  resume_sends [] = 0
  resume_sends (dispatches a ∷ es) = resume_sends es
  resume_sends (works i ∷ es) = resume_sends es
  resume_sends (links i url ∷ es) = resume_sends es
  resume_sends (pause ∷ es) = resume_sends es
  resume_sends (clear_pause ∷ es) = resume_sends es
  resume_sends (send_resume ∷ es) = resume_sends es + 1
  resume_sends (cancel ∷ es) = resume_sends es

  -- The loop is cancelled and stands where it stood, with at most `n` more steps left.
  Still : ℕ → System → System → Type 0
  Still n s t = (t.cancelled ≡ true) × (t.position ≡ s.position) × (left t ≤ left s + n)

  work-Still :
      (p : Phase) (i : ℕ) (w : Worker) (s : System)
      → s.cancelled ≡ true
      → Still 0 s (work_in H c p i w s)
  unfolding work_in Still left
  work-Still starting i w s v = (v, refl, omega arith)
  work-Still running i w s v = ground arith
  work-Still host_freed i w s v = (v, refl, omega arith)
  work-Still slot_freed i w s v = (v, refl, omega arith)
  work-Still inactive i w s v = (v, refl, omega arith)
  work-Still gone i w s v = (v, refl, omega arith)

  works-Still : (i : ℕ) (s : System) → s.cancelled ≡ true → Still 0 s (step H c (works i) s)
  unfolding step work Still
  works-Still i s k = elim (Option-cases (get_elem? s.workers i)) [
    | inl n ↦ ground arith
    | inr (w, n) ↦ ground (arith, work-Still w.phase i w s k)
  ]

  links-Still :
      (i : ℕ) (url : String) (s : System)
      → s.cancelled ≡ true
      → Still 0 s (step H c (links i url) s)
  unfolding step link link_in Still left
  links-Still i url s k = ground arith

  clear_pause-Still : (s : System) → s.cancelled ≡ true → Still 0 s (step H c clear_pause s)
  unfolding step Still left
  clear_pause-Still s k = ground arith

  send_resume-Still : (s : System) → s.cancelled ≡ true → Still 4 s (step H c send_resume s)
  unfolding step Still left
  send_resume-Still s k = ground arith

  -- The loop has ended, or the events have enough of its steps.
  abbrev Enough : List Event → System → Type 0
  Enough es s = (s.position ≡ ended) ⊎ (left s + 4 * resume_sends es ≤ loop_steps es)

  Still-Enough :
      (n : ℕ) (e : Event) (es : List Event) (s t : System)
      → Still n s t
      → resume_sends (e ∷ es) * 4 ≡ n + resume_sends es * 4
      → loop_steps (e ∷ es) ≡ loop_steps es
      → Enough (e ∷ es) s
      → (t.cancelled ≡ true) × Enough es t
  unfolding Still
  Still-Enough n e es s t (k, p, q) a b h =
      (k, elim h [ inl d ↦ inl (p ∙ d) | inr d ↦ inr (omega (arith, d, a, b, q)) ])

  step-Enough :
      (e : Event) (es : List Event) (s : System)
      → s.cancelled ≡ true
      → Enough (e ∷ es) s
      → ((step H c e s).cancelled ≡ true) × Enough es (step H c e s)
  unfolding step dispatch loop_steps resume_sends Nearer Still left
  step-Enough (dispatches a) es s k h =
      let (k', n) = dispatch-Nearer s.position a s refl k in
      (
        k',
        (elim h [
          | inl d ↦ inl (dispatch-ended a s d)
          | inr d ↦ elim n [ inl d ↦ inl d.1 | inr m ↦ inr (omega (arith, d, m)) ]
        ]),
      )
  step-Enough (works i) es s k h =
      Still-Enough 0 (works i) es s (step H c (works i) s) (works-Still i s k) (omega arith) refl h
  step-Enough (links i url) es s k h =
      Still-Enough 0 (links i url) es s (step H c (links i url) s) (links-Still i url s k)
        (omega arith) refl h
  step-Enough pause es s k h = (k, h)
  step-Enough clear_pause es s k h =
      Still-Enough 0 clear_pause es s (step H c clear_pause s) (clear_pause-Still s k) (omega arith)
        refl h
  step-Enough send_resume es s k h =
      Still-Enough 4 send_resume es s (step H c send_resume s) (send_resume-Still s k) (omega arith)
        refl h
  step-Enough cancel es s k h = (refl, h)

  run-ended :
      (es : List Event) (s : System)
      → s.cancelled ≡ true
      → Enough es s
      → (run H c es s).position ≡ ended
  unfolding run loop_steps resume_sends
  run-ended [] s k h = elim h [ inl e ↦ e | inr d ↦ left_none s (omega (arith, d)) ]
  run-ended (e ∷ es) s k h =
      let (k', h') = step-Enough e es s k h in run-ended es (step H c e s) k' h'

  -- Once the crawl is cancelled, the loop ends, wherever it stands, whatever is answered and however
  -- its steps interleave with those of the goroutines and with `Pause` and `Resume`: it has ended after
  -- any events with 13 of its own steps, and four more for each send of `Resume` among them.
  pub cancelled_ends :
      (es : List Event) (s : System)
      → s.cancelled ≡ true
      → 13 + 4 * resume_sends es ≤ loop_steps es
      → (run H c es s).position ≡ ended
  cancelled_ends es s k l = run-ended es s k (inr (omega (arith, left-le s)))
