-- ===== src/Crawler/Dispatch/Loop.antt =====
-- internal/crawler/start.go: one step of the dispatch loop. What other components answer in the
-- step is an input; a step that would block leaves the state as it is.
use Prim.Native.String.{String}
use omegacrawl.Base.{
  ◌+◌, ◌-◌, Bool, true, false, not, ◌&&◌, ◌||◌, [], ◌∷◌, ◌++◌, none, some, leb, if◌then◌else◌, ◌==◌,
}
use omegacrawl.Base.Int.{pos, int_leb, int_ltb, not_positive}
use omegacrawl.Queue.Item.{UrlItem, Heap}
use omegacrawl.Queue.Priority.{pop_url}
use omegacrawl.Crawler.Dispatch.State.{
  Position, at_top, at_pause, in_pause, at_limit, at_pop, at_idle, in_idle, ended, took,
  awaits_asset_slot, awaits_host_slot, holds_host_slot, awaits_page_slot, starting, Settings,
  host_slots, System, at_host,
}

-- The answers: which ready case a `select` takes, the breaker, robots.txt, and whether the rate
-- limiter's wait ends without an error.
pub record Answers : Type 0 where
  pub take_cancel : Bool
  pub breaker_allows : Bool
  pub can_crawl : Bool
  pub rate_wait_ok : Bool

module _ (H : Heap) (c : Settings) where
  abbrev pub host_of : UrlItem → String
  host_of item = c.get_host item.url

  -- After the pop: the depth, and the count of the host's URLs.
  unfoldable pub take_item : UrlItem → System → System
  take_item item s =
      if int_ltb c.max_depth (pos item.depth)
      then record s { position = at_top }
      else if not (not_positive c.max_urls_per_host)
          && int_leb c.max_urls_per_host (pos (s.host_url_count (host_of item)))
      then record s { position = at_top }
      else record s {
        position = took item;
        host_url_count =
            at_host s.host_url_count (host_of item) (s.host_url_count (host_of item) + 1);
      }

  -- A panic of container/heap ends the loop, with the program.
  unfoldable pub pop_step : System → System
  unfolding take_item
  pop_step s = elim (pop_url H s.queue) [
    | none ↦ record s { position = ended }
    | some (q, none) ↦ record s { position = at_idle; queue = q }
    | some (q, some item) ↦ take_item item (record s { queue = q })
  ]

  -- An asset that is not blocked and whose host's breaker allows it joins `wg`.
  unfoldable pub route_step : UrlItem → Answers → System → System
  route_step item a s =
      if c.is_html_page_url item.url
      then record s { position = awaits_host_slot item }
      else if c.blocked_pattern_match item.url || not a.breaker_allows
      then record s { position = at_top }
      else record s { position = awaits_asset_slot item; wg = s.wg + 1 }

  unfoldable pub spawn : UrlItem → Bool → System → System
  spawn item is_page s = record s {
    position = at_top;
    active_pages = s.active_pages + 1;
    workers = s.workers ++ record { item = item; is_page = is_page; phase = starting } ∷ [];
  }

  unfoldable pub asset_slot_step : UrlItem → Answers → System → System
  unfolding spawn
  asset_slot_step item a s =
      if s.cancelled && (a.take_cancel || leb c.asset_slots s.asset_sem)
      then record s { position = ended; wg = s.wg - 1 }
      else if leb c.asset_slots s.asset_sem
      then s
      else spawn item false (record s { asset_sem = s.asset_sem + 1 })

  unfoldable pub host_slot_step : UrlItem → Answers → System → System
  host_slot_step item a s =
      if s.cancelled && (a.take_cancel || leb host_slots (s.host_semaphores (host_of item)))
      then record s { position = at_top }
      else if leb host_slots (s.host_semaphores (host_of item))
      then s
      else record s {
        position = holds_host_slot item;
        host_semaphores =
            at_host s.host_semaphores (host_of item) (s.host_semaphores (host_of item) + 1);
      }

  abbrev pub free_host : String → System → System
  free_host host s = record s {
    host_semaphores = at_host s.host_semaphores host (s.host_semaphores host - 1);
  }

  -- robots.txt, the rate limiter and the breaker, in this order; then `wg.Add`.
  unfoldable pub admit_step : UrlItem → Answers → System → System
  admit_step item a s =
      if not a.can_crawl || (not a.rate_wait_ok || not a.breaker_allows)
      then record (free_host (host_of item) s) { position = at_top }
      else record s { position = awaits_page_slot item; wg = s.wg + 1 }

  unfoldable pub page_slot_step : UrlItem → Answers → System → System
  unfolding spawn
  page_slot_step item a s =
      if s.cancelled && (a.take_cancel || leb c.page_slots s.semaphore)
      then record (free_host (host_of item) s) { position = ended; wg = s.wg - 1 }
      else if leb c.page_slots s.semaphore
      then s
      else spawn item true (record s { semaphore = s.semaphore + 1 })

  unfoldable pub dispatch_at : Position → Answers → System → System
  unfolding pop_step route_step asset_slot_step host_slot_step admit_step page_slot_step
  dispatch_at at_top a s =
      if s.cancelled then record s { position = ended } else record s { position = at_pause }
  dispatch_at at_pause a s =
      if s.paused then record s { position = in_pause } else record s { position = at_limit }
  dispatch_at in_pause a s =
      if s.cancelled && (a.take_cancel || not s.resume_signal)
      then record s { position = ended }
      else if s.resume_signal
      then record s { position = at_pause; resume_signal = false }
      else s
  dispatch_at at_limit a s =
      if not (not_positive c.max_total_urls) && int_leb c.max_total_urls (pos s.total_urls)
      then record s { position = ended }
      else record s { position = at_pop }
  dispatch_at at_pop a s = pop_step s
  dispatch_at at_idle a s =
      if s.active_pages == 0 then record s { position = ended } else record s { position = in_idle }
  dispatch_at in_idle a s =
      if s.cancelled && a.take_cancel
      then record s { position = ended }
      else record s { position = at_top }
  dispatch_at (took item) a s = route_step item a s
  dispatch_at (awaits_asset_slot item) a s = asset_slot_step item a s
  dispatch_at (awaits_host_slot item) a s = host_slot_step item a s
  dispatch_at (holds_host_slot item) a s = admit_step item a s
  dispatch_at (awaits_page_slot item) a s = page_slot_step item a s
  dispatch_at ended a s = s

  unfoldable pub dispatch : Answers → System → System
  unfolding dispatch_at
  dispatch a s = dispatch_at s.position a s
