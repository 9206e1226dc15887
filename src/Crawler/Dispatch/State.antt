-- ===== src/Crawler/Dispatch/State.antt =====
-- internal/crawler/start.go, crawler_struct.go, semaphore.go: what the dispatch loop and its
-- goroutines share. A channel used as a semaphore is the number of its tokens that are taken. The
-- positions of the loop are the points at which another goroutine can run in between.
use Prim.Native.String.{String}
use text.Mathlib.Text.{◌==◌}
use omegacrawl.Base.{ℕ, Bool, false, List, [], if◌then◌else◌}
use omegacrawl.Base.Int.{ℤ}
use omegacrawl.Queue.Item.{UrlItem}
use omegacrawl.Queue.Priority.{PriorityQueue}

-- Where the loop stands.
pub data Position : Type 0 where
  at_top at_pause in_pause at_limit at_pop at_idle in_idle ended : Position
  took : UrlItem → Position  -- popped, counted for its host
  awaits_asset_slot : UrlItem → Position
  awaits_host_slot : UrlItem → Position
  holds_host_slot : UrlItem → Position
  awaits_page_slot : UrlItem → Position

-- How far a goroutine is; the deferred calls run one by one after the page or asset is done.
pub data Phase : Type 0 where
  starting running host_freed slot_freed inactive gone : Phase

pub record Worker : Type 0 where
  pub item : UrlItem
  pub is_page : Bool
  pub phase : Phase

-- What the configuration and the parser of URLs fix. The capacity of a host's channel is 2.
pub record Settings : Type 0 where
  pub max_total_urls : ℤ
  pub max_depth : ℤ
  pub max_urls_per_host : ℤ
  pub page_slots : ℕ
  pub asset_slots : ℕ
  pub get_host : String → String
  pub is_html_page_url : String → Bool
  pub blocked_pattern_match : String → Bool

abbrev pub host_slots : ℕ
host_slots = 2

pub record System : Type 0 where
  pub position : Position
  pub queue : PriorityQueue
  pub cancelled : Bool  -- the context is done
  pub paused : Bool
  pub resume_signal : Bool  -- `resumeCh`, of capacity 1, holds a token
  pub resuming : ℕ  -- calls of `Resume` that cleared `paused` and have not sent yet
  pub total_urls : ℕ
  pub host_url_count : String → ℕ
  pub host_semaphores : String → ℕ
  pub semaphore : ℕ
  pub asset_sem : ℕ
  pub active_pages : ℕ
  pub wg : ℕ
  pub workers : List Worker

-- `m[host] = v` on a map with zero values.
abbrev pub at_host : (String → ℕ) → String → ℕ → String → ℕ
at_host f host v h = if host == h then v else f h

-- The loop is entered with a queue that was seeded or loaded.
abbrev pub start_crawl : PriorityQueue → System
start_crawl q = record {
  position = at_top;
  queue = q;
  cancelled = false;
  paused = false;
  resume_signal = false;
  resuming = 0;
  total_urls = 0;
  host_url_count = λ h. 0;
  host_semaphores = λ h. 0;
  semaphore = 0;
  asset_sem = 0;
  active_pages = 0;
  wg = 0;
  workers = [];
}
