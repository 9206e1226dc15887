-- ===== src/Crawler/Dispatch/Early.antt =====
-- internal/crawler/start.go: the loop can end while a URL is queued, since it looks at the queue before
-- it looks at `activePages`.
use Prim.Native.String.{String}
use omegacrawl.Base.{◌+◌, ◌-◌, ◌≡◌, refl, true, false, List, [], ◌∷◌, arith}
use omegacrawl.Base.Int.{pos, int_leb}
use omegacrawl.Queue.Item.{Heap}
use omegacrawl.Queue.Priority.{pop_url, push_url, has_seen, size}
use omegacrawl.Queue.Behaviour.{push_url_lem}
use omegacrawl.Crawler.Dispatch.State.{
  at_pop, ended, running, inactive, Worker, Settings, System, at_host,
}
use omegacrawl.Crawler.Dispatch.Loop.{Answers, pop_step, dispatch_at, dispatch}
use omegacrawl.Crawler.Dispatch.System.{
  Event, dispatches, works, links, work_in, work, link_in, link, step, run,
}

module _ (H : Heap) (c : Settings) where
  -- The loop finds no URL; the last page then queues a link and finishes; the loop looks again.
  abbrev pub missed : Answers → Answers → String → List Event
  missed a b url = dispatches a ∷ links 0 url ∷ works 0 ∷ works 0 ∷ works 0 ∷ dispatches b ∷ []

  -- What the six steps come to.
  abbrev after_missed : Worker → String → System → System
  after_missed w url s = record s {
    position = ended;
    queue = (push_url H url (w.item.depth + 1) s.queue).0;
    host_semaphores =
        at_host s.host_semaphores (c.get_host w.item.url)
          (s.host_semaphores (c.get_host w.item.url) - 1);
    semaphore = s.semaphore - 1;
    active_pages = s.active_pages - 1;
    workers = record w { phase = inactive } ∷ [];
  }

  run-missed :
      (a b : Answers) (w : Worker) (url : String) (s : System)
      → s.position ≡ at_pop
      → s.queue.items ≡ []
      → s.workers ≡ w ∷ []
      → w.is_page ≡ true
      → w.phase ≡ running
      → s.active_pages ≡ 1
      → run H c (missed a b url) s ≡ after_missed w url s
  unfolding run step dispatch dispatch_at pop_step pop_url link link_in work work_in
  run-missed a b w url s p q ws k f n = ground arith

  -- Where one page is left, the loop stands before its pop and the queue is empty: if the loop pops,
  -- the page then queues a new URL and finishes, and the loop goes on, it ends with the URL still
  -- queued, though the crawl is not cancelled.
  pub ends_early :
      (a b : Answers) (w : Worker) (url : String) (s : System)
      → s.position ≡ at_pop
      → s.queue.items ≡ []
      → s.workers ≡ w ∷ []
      → w.is_page ≡ true
      → w.phase ≡ running
      → s.active_pages ≡ 1
      → s.cancelled ≡ false
      → has_seen url s.queue ≡ false
      → int_leb s.queue.max_size (pos (size s.queue)) ≡ false
      → ((run H c (missed a b url) s).position ≡ ended)
        × ((run H c (missed a b url) s).cancelled ≡ false)
        × (size (run H c (missed a b url) s).queue ≡ size s.queue + 1)
  ends_early a b w url s p q ws k f n u v l =
      let e = run-missed a b w url s p q ws k f n in
      rw e (refl, u, ground (arith, push_url_lem H s.queue url (w.item.depth + 1)))
