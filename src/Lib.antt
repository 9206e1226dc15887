-- ===== src/Lib.antt =====
-- omegacrawl, a web crawler in Go: models of the parts that decide what is crawled, when, and how
-- often, with the theorems that make them correct.
--
-- The parts and the files that model them (paths are from the repository's root):
--   * internal/resilience/circuitbreaker.go: Resilience. Breaker has the breaker of one host, one
--     function for each method (NewCircuitBreaker is new_circuit_breaker, Allow is allow, and so
--     on); Host has HostCircuitBreaker over the interface Sync.Keyed, which Sync.Implements fills.
--     Behaviour and Probes are about one breaker, Calls, Cleanup and Unobservable about all.
--   * internal/sync/sharded.go: Sync. Sharded has ShardedMap with its shards as association lists;
--     Set is put. Laws, Entries and Implements prove the interface, Once is about GetOrSet
--     and Clear.
--   * internal/queue: Queue. Item and Priority have the priority queue (types.go, heap.go, ops.go),
--     Strip the tracking parameters (params.go, strip.go), Glob the patterns (glob.go).
--   * internal/util: Util.BoundedQueue, a ring buffer (bounded_queue.go), and Util.Lru, the LRU cache
--     and set as one model of linked nodes (lru_cache.go, lru_set.go): Lru has the methods, Links and
--     Ring the links, Entries and Holds what the nodes and the map hold, Insert a new node, Spec what
--     the methods promise, Refines and History that they keep it, Kept how long a value stays.
--   * internal/localize: Localize. Canonical has the keys of pages that show the same document
--     (canonical.go), Dedup the grouping of pages and its report, Dedup.Copy which files are copied,
--     Dedup.Manifest the manifest and Dedup as a whole (dedup.go, copy.go).
--   * internal/config: Config. Types, Default and Validate follow types.go, config.go, validate.go;
--     Conditions says on its own what a configuration must meet.
--   * internal/errors: Errors. Kinds (types.go, sentinels.go), Contains and Classify (classify.go,
--     crawl.go).
--   * internal/robots: Robots. Match, Evaluate, Parse and Cache follow rules.go.
--   * internal/crawler: Crawler. Domain and Admit (urls.go, queueing.go), Overlap the calls of
--     shouldQueue that overlap, Overlap.Passes which of them pass, Page (crawl_page.go, retry.go). Dispatch is the loop of Start (start.go) with the goroutines that it begins, the
--     semaphores (semaphore.go), Pause and Resume (status.go): State has what they share, Loop one
--     step of the loop, System the other steps and the runs; Slots, Ends, Cancelled, Limits and Early are
--     about all runs.
--   * internal/browserpool: Browserpool. Pool has New, Start, Acquire, HealthCheck and Close (launch.go,
--     acquire.go, health.go, types.go); Selects, Acquires and Health are about them. HealthCheck is one
--     step here, though it releases the mutex.
--   * internal/storage: Storage. Path has PathForURL and PathForAPI (path.go) over Clean, which is what
--     they use of path/filepath; Parts has the parts of a name, Within and Blocked say where the paths lie. Incremental is the cache of
--     validation data (incremental.go) with pointers into a heap, Saved its file.
--   * internal/changedetection/detector.go: Changedetection. Diff is diffSnapshots, Load
--     LoadSnapshots, Capture the other operations; Order, Pointwise and Applied are about the changes,
--     History, Compared and Newest about the snapshots of each URL. sort.Slice is a parameter of
--     LoadSnapshots with its documented behaviour (Load.IsSort), which Load.Stable fills.
--   * internal/ratelimit/limiter.go: Ratelimit, and Adaptive the delay after an observed latency.
--     get looks a host up twice; what other goroutines do in between is its argument.
--   * internal/crawler/do_crawl.go: Crawler.Aggregate is writeSiteAggregate, Seed which document wins.
--   * internal/crawler/asset_downloader.go: Crawler.Downloader has the sort, one download and the batch of
--     Execute as steps; Sorted, Sound, Outcomes, Collected and Progress are about them.
--   * internal/scheduler/scheduler.go: Scheduler.Cron (matchField, matchCron, the search of parseCron).
-- Base has what they share. Each part has a module Examples with its test data.
--
-- How they interact: shouldQueue (Crawler.Admit) lets a URL into the queue (Queue.Priority); robots
-- (Robots.Cache) and the breaker of its host (Resilience.Host) let it be visited; crawlPage
-- (Crawler.Page) tries it, with Classify (Errors) to tell which errors are tried again, and reports
-- to the breaker.
--
-- The dispatch loop (Crawler.Dispatch) takes URLs out of that queue and begins the pages; what
-- robots, the rate limiter and the breaker answer in a step is an input of the step. A page that is
-- captured is handed to the change detector (Changedetection), saved at its path (Storage.Path), its
-- validation data recorded (Storage.Incremental), and its document perhaps made the aggregate of its
-- host (Crawler.Aggregate). Ratelimit and Crawler.Downloader stand by themselves.
--
-- State is passed explicitly. A method that holds a mutex, and one whose fields are atomic, is one
-- step: interleavings inside a call are not modelled, but for the dispatch loop and its goroutines, a
-- batch of the asset downloader, writeSiteAggregate, the calls of shouldQueue and the saves of the cache
-- of validation data, whose steps are interleaved in any order. A request's wait for the rate limiter
-- comes after get and is not part of it. The clock readings of a call are arguments,
-- in nanoseconds. An int is a number without a bound, and ℤ where it may be negative; the int32 of
-- probes left wraps at 2 ^ 32. A panic is none. No function needs fuel: the loops run over lists or
-- count down, as the search of parseCron does over its 525600 minutes. The
-- work left of a batch of downloads is a measure (Crawler.Downloader.Sound.work_left).
--
-- Parameters: the hash of hash/maphash, container/heap (Queue.Item.Heap, filled by a sorted list in
-- Queue.Sorted), the exact set and the Bloom filter (Crawler.Admit.Filters), what net/url, fmt,
-- time and the network answer, golang.org/x/time/rate and floating point (Ratelimit.RateLib),
-- what the change detector asks of os and crypto/sha256 (Changedetection.Capture.Os), and whether
-- regexp accepts a quoted rule.
--
-- A node of the LRU cache is an address, 0 is nil, and a read through nil is none. In Localize the
-- parser and the printer of net/url are parameters, and so is what Dedup asks of a file.
--
-- Not modelled: a second batch of an asset downloader that was stopped, the writing of files, WARC and
-- WACZ archives, the start and the drain of a crawl, the pruning of the maps of hosts, the panics
-- that goroutines recover from, whatever drives a browser, a file system, a database or a network
-- peer (whether a launch of a browser succeeds is an argument), and the parts that rewrite HTML and CSS.
pub mod Base
pub mod Sync
pub mod Util
pub mod Browserpool
pub mod Config
pub mod Errors
pub mod Ratelimit
pub mod Resilience
pub mod Queue
pub mod Localize
pub mod Robots
pub mod Scheduler
pub mod Storage
pub mod Changedetection
pub mod Crawler
