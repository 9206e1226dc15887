-- ===== src/Crawler/Dispatch/Examples.antt =====
-- Test data for the dispatch loop, and the theorems applied to it.
use omegacrawl.Base.{◌+◌, ◌≤◌, ◌≡◌, refl, true, false, List, [], ◌∷◌, ◌++◌, map, arith}
use omegacrawl.Base.Int.{pos, int_leb}
use omegacrawl.Base.Sums.{total}
use omegacrawl.Queue.Sorted.{sorted_list, first}
use omegacrawl.Queue.Priority.{PriorityQueue, pop_url, has_seen, size}
use omegacrawl.Base.Dict.{member}
use omegacrawl.Crawler.Dispatch.State.{
  in_pause, at_limit, at_pop, ended, running, Worker, Settings, System, start_crawl,
}
use omegacrawl.Crawler.Dispatch.Loop.{
  Answers, dispatch_at, dispatch, pop_step, take_item, route_step, host_slot_step, admit_step,
  page_slot_step, spawn,
}
use omegacrawl.Crawler.Dispatch.System.{
  Event, dispatches, works, pause, clear_pause, send_resume, work_in, work, step, run,
}
use omegacrawl.Crawler.Dispatch.Slots.{IsAccounted, run-IsAccounted}
use omegacrawl.Crawler.Dispatch.Ends.{resume_wakes}
use omegacrawl.Crawler.Dispatch.Cancelled.{loop_steps, resume_sends, cancelled_ends}
use omegacrawl.Crawler.Dispatch.Limits.{of_host, spawned-le-limit}
use omegacrawl.Crawler.Dispatch.Early.{missed, ends_early}

abbrev one_host : Settings
one_host = record {
  max_total_urls = pos 100;
  max_depth = pos 3;
  max_urls_per_host = pos 5;
  page_slots = 4;
  asset_slots = 16;
  get_host = λ u. "a.org";
  is_html_page_url = λ u. true;
  blocked_pattern_match = λ u. false;
}

abbrev yes_to_all : Answers
yes_to_all = record {
  take_cancel = false;
  breaker_allows = true;
  can_crawl = true;
  rate_wait_ok = true;
}

abbrev turn : Event
turn = dispatches yes_to_all

abbrev seeded : PriorityQueue
seeded = record {
  items = record { url = "https://a.org/"; depth = 0; index = pos 0 } ∷ [];
  seen = "https://a.org/" ∷ [];
  max_size = pos 10;
}

-- The loop dispatches the seed and comes back to its pop, and the page has begun.
abbrev first_page : List Event
first_page =
    turn ∷ turn ∷ turn ∷ turn ∷ turn ∷ turn ∷ turn ∷ turn ∷ works 0 ∷ turn ∷ turn ∷ turn ∷ []

abbrev one_page : System
one_page = run sorted_list one_host first_page (start_crawl seeded)

abbrev seed_worker : Worker
seed_worker = record {
  item = record { url = "https://a.org/"; depth = 0; index = pos 0 };
  is_page = true;
  phase = running;
}

one_page_workers : one_page.workers ≡ seed_worker ∷ []
unfolding run step dispatch dispatch_at pop_step pop_url first take_item route_step host_slot_step
    admit_step page_slot_step spawn work work_in
one_page_workers = refl

one_page_at :
    (one_page.position ≡ at_pop) × (one_page.active_pages ≡ 1) × (one_page.cancelled ≡ false)
unfolding run step dispatch dispatch_at pop_step pop_url first take_item route_step host_slot_step
    admit_step page_slot_step spawn work work_in
one_page_at = (refl, refl, refl)

one_page_queue :
    (one_page.queue.items ≡ [])
    × (has_seen "https://a.org/b" one_page.queue ≡ false)
    × (one_page.queue.max_size ≡ pos 10)
unfolding run step dispatch dispatch_at pop_step pop_url first take_item route_step host_slot_step
    admit_step page_slot_step spawn work work_in has_seen member
one_page_queue = (refl, refl, refl)

run-IsAccounted_example :
    IsAccounted sorted_list one_host "a.org"
      (run sorted_list one_host first_page (start_crawl seeded))
run-IsAccounted_example = run-IsAccounted sorted_list one_host "a.org" first_page seeded

spawned-le-limit_example :
    total
      (of_host sorted_list one_host "a.org")
      (run sorted_list one_host first_page (start_crawl seeded)).workers
    ≤ 5
spawned-le-limit_example = spawned-le-limit sorted_list one_host "a.org" 4 first_page seeded refl

-- Paused, at a stand, and the first half of `Resume`.
abbrev resumed : List Event
resumed = pause ∷ turn ∷ turn ∷ clear_pause ∷ []

resumed_at :
    ((run sorted_list one_host resumed (start_crawl seeded)).position ≡ in_pause)
    × ((run sorted_list one_host resumed (start_crawl seeded)).paused ≡ false)
    × ((run sorted_list one_host resumed (start_crawl seeded)).cancelled ≡ false)
unfolding run step dispatch dispatch_at
resumed_at = (refl, refl, refl)

resume_wakes_example :
    (run sorted_list one_host
      (send_resume ∷ turn ∷ turn ∷ [])
      (run sorted_list one_host resumed (start_crawl seeded))).position
    ≡ at_limit
resume_wakes_example =
    resume_wakes sorted_list one_host resumed seeded yes_to_all yes_to_all resumed_at.0 resumed_at.1
      resumed_at.2

abbrev ten_answers : List Answers
ten_answers =
    yes_to_all ∷ yes_to_all ∷ yes_to_all ∷ yes_to_all ∷ yes_to_all ∷ yes_to_all ∷ yes_to_all
    ∷ yes_to_all ∷ yes_to_all ∷ yes_to_all ∷ []

abbrev cancelled_page : System
cancelled_page = record one_page { cancelled = true }

abbrev paused_between : List Event
paused_between =
    map dispatches ten_answers
    ++ (pause ∷ works 0 ∷ clear_pause ∷ send_resume ∷ map dispatches ten_answers)

cancelled_ends_example : (run sorted_list one_host paused_between cancelled_page).position ≡ ended
unfolding loop_steps resume_sends
cancelled_ends_example =
    cancelled_ends sorted_list one_host paused_between cancelled_page refl (omega arith)

queue_room : int_leb one_page.queue.max_size (pos (size one_page.queue)) ≡ false
unfolding run step dispatch dispatch_at pop_step pop_url first take_item route_step host_slot_step
    admit_step page_slot_step spawn work work_in size
queue_room = refl

ends_early_example :
    ((run sorted_list one_host
        (missed sorted_list one_host yes_to_all yes_to_all "https://a.org/b")
        one_page).position
      ≡ ended)
    × ((run sorted_list one_host
          (missed sorted_list one_host yes_to_all yes_to_all "https://a.org/b")
          one_page).cancelled
        ≡ false)
    × (size
          (run sorted_list one_host
            (missed sorted_list one_host yes_to_all yes_to_all "https://a.org/b")
            one_page).queue
        ≡ size one_page.queue + 1)
ends_early_example =
    ends_early sorted_list one_host yes_to_all yes_to_all seed_worker "https://a.org/b" one_page
      one_page_at.0 one_page_queue.0 one_page_workers refl refl one_page_at.1 one_page_at.2
      one_page_queue.1 queue_room
