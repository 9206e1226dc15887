-- ===== src/Robots/Cache.antt =====
-- internal/robots/rules.go: `CanCrawl` and the cache of entries. The key of the cache is the URL of
-- robots.txt; what net/url finds in a URL, and the answer of the server, are inputs. Calls do not
-- overlap. `now` is the clock that `time.Since` reads.
use Prim.Native.String.{String}
use omegacrawl.Base.{
  ℕ, ◌+◌, ◌*◌, Bool, true, not, ◌||◌, List, [], ◌∷◌, Option, none, some, leb, ltb, ◌==◌,
  if◌then◌else◌,
}
use omegacrawl.Base.Int.{ℤ}
use omegacrawl.Base.Dict.{lookup, insert}
use omegacrawl.Errors.Classify.{codes}
use omegacrawl.Robots.Evaluate.{RobotsEntry, evaluate_rules}
use omegacrawl.Robots.Parse.{empty_entry, read_body}

-- What a request for robots.txt comes to.
pub data Response : Type 0 where
  failed : Response
  answered : ℕ → Option (List ℕ) → Response  -- the status, and the body unless reading it fails

pub record RobotsParser : Type 0 where
  pub cache : List (String × RobotsEntry)
  pub cache_ttl : ℕ
  pub transient_ttl : ℕ
  pub user_agent : List ℕ

abbrev pub second : ℕ
second = 1_000_000_000

unfoldable pub new_robots_parser : RobotsParser
new_robots_parser = record {
  cache = [];
  cache_ttl = 24 * 3600 * second;
  transient_ttl = 5 * 60 * second;
  user_agent = codes "*";
}

unfoldable pub set_user_agent : List ℕ → RobotsParser → RobotsParser
set_user_agent ua rp = record rp { user_agent = ua }

-- `url.Parse`: the URL of robots.txt and the path.
pub record Target : Type 0 where
  pub robots_url : String
  pub path : List ℕ

module _ (compiles : List ℕ → Bool) (parse_seconds : List ℕ → Option ℤ) where
  -- `began` is the clock before the request, `now` the one after it.
  unfoldable pub fetch_robots : ℕ → ℕ → List ℕ → Response → RobotsEntry
  fetch_robots began now ua failed = empty_entry parse_seconds began
  fetch_robots began now ua (answered status body) =
      if status == 404 || status == 410
      then empty_entry parse_seconds began
      else if leb 500 status
      then record (empty_entry parse_seconds now) { disallow = codes "/" ∷ []; transient = true }
      else if not (status == 200)
      then empty_entry parse_seconds began
      else elim body [
        | none ↦ empty_entry parse_seconds began
        | some text ↦ read_body parse_seconds began ua text
      ]

  -- `time.Since(entry.fetchedAt) < ttl`
  unfoldable pub is_fresh : ℕ → RobotsEntry → RobotsParser → Bool
  is_fresh now entry rp =
      ltb now (entry.fetched_at + (if entry.transient then rp.transient_ttl else rp.cache_ttl))

  abbrev or_own : List ℕ → List ℕ → List ℕ
  or_own own [] = own
  or_own own (c ∷ ua) = c ∷ ua

  -- Fetch, store and evaluate.
  unfoldable pub fetch_and_evaluate :
      Target → List ℕ → ℤ → ℕ → ℕ → Response → RobotsParser → RobotsParser × (Bool × ℤ)
  fetch_and_evaluate t ua crawl_delay began now answer rp =
      let entry = fetch_robots began now (or_own rp.user_agent ua) answer in
      (
        record rp { cache = insert t.robots_url entry rp.cache },
        evaluate_rules compiles entry t.path crawl_delay,
      )

  -- `CanCrawl`: the parser, whether the URL may be crawled, and the delay. The target is `none`
  -- where `url.Parse` fails; `respect_robots` and `crawl_delay` are of the configuration.
  unfoldable pub can_crawl :
      Option Target
      → List ℕ
      → Bool
      → ℤ
      → ℕ
      → ℕ
      → Response
      → RobotsParser
      → RobotsParser × (Bool × ℤ)
  can_crawl target ua respect_robots crawl_delay began now answer rp =
      if not respect_robots then (rp, (true, crawl_delay)) else elim target [
        | none ↦ (rp, (true, crawl_delay))
        | some t ↦ elim (lookup t.robots_url rp.cache) [
          | none ↦ fetch_and_evaluate t ua crawl_delay began now answer rp
          | some entry ↦
              if is_fresh began entry rp
              then (rp, evaluate_rules compiles entry t.path crawl_delay)
              else fetch_and_evaluate t ua crawl_delay began now answer rp
        ]
      ]

  -- The entries older than the time to live, removed.
  unfoldable pub clear_expired : ℕ → ℕ → List (String × RobotsEntry) → List (String × RobotsEntry)
  clear_expired now ttl [] = []
  clear_expired now ttl ((key, entry) ∷ cache) =
      let rest = clear_expired now ttl cache in
      if ltb (entry.fetched_at + ttl) now then rest else (key, entry) ∷ rest
