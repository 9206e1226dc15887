-- ===== src/Crawler/Admit.antt =====
-- internal/crawler/queueing.go: `shouldQueue`. The Bloom filter (bits-and-blooms/bloom behind
-- internal/queue/bloom.go) is a parameter without false negatives; the exact set is a parameter
-- that may forget what it holds, as an LRU set does. What net/url answers is part of the policy.
-- `should_queue` is a call that no other overlaps; those that do are in Crawler/Overlap.antt.
use Prim.Native.String.{String}
use omegacrawl.Base.{ℕ, ◌≡◌, Bool, true, false, not, ◌&&◌, ◌⊎◌, List, leb, if◌then◌else◌}
use omegacrawl.Base.Int.{ℤ, pos, int_leb, not_positive}
use omegacrawl.Crawler.Domain.{is_allowed_domain}

pub record Filters : Type 1 where
  pub Exact : Type 0
  pub exact_contains : String → Exact → Bool
  pub exact_add : String → Exact → Exact
  -- What is in the exact set was added.
  pub contains-exact_add :
      (u v : String) (e : Exact)
      → exact_contains v (exact_add u e) ≡ true
      → (u ≡ v) ⊎ (exact_contains v e ≡ true)
  pub Bloom : Type 0
  pub has_seen : String → Bloom → Bool
  pub bloom_add : String → Bloom → Bloom
  pub has_seen-add_self : (u : String) (b : Bloom) → has_seen u (bloom_add u b) ≡ true
  pub has_seen-add :
      (u v : String) (b : Bloom) → has_seen v b ≡ true → has_seen v (bloom_add u b) ≡ true

pub record Policy : Type 0 where
  pub is_valid_url : String → Bool
  pub get_host : String → List ℕ
  pub allowed_domains : List (List ℕ)
  pub exclude_fn : String → Bool
  pub max_total_urls : ℤ

abbrev pub max_queue_size : ℕ
max_queue_size = 100000

module _ (F : Filters) where
  open F use {Exact, exact_contains, exact_add, Bloom, has_seen, bloom_add}

  pub record Dedup : Type 0 where
    pub exact : Exact
    pub bloom : Bloom

  -- The tests before the filters: `total` URLs were crawled, `size` are queued.
  unfoldable pub within_policy : Policy → ℕ → ℕ → String → Bool
  within_policy p total size url =
      if not (p.is_valid_url url)
      then false
      else if not (is_allowed_domain p.allowed_domains (p.get_host url))
      then false
      else if p.exclude_fn url
      then false
      else if not (not_positive p.max_total_urls) && int_leb p.max_total_urls (pos total)
      then false
      else not (leb max_queue_size size)

  unfoldable pub should_queue : Policy → ℕ → ℕ → String → Dedup → Dedup × Bool
  should_queue p total size url d =
      if not (within_policy p total size url)
      then (d, false)
      else if exact_contains url d.exact
      then (d, false)
      else if has_seen url d.bloom
      then (d, false)
      else (record { exact = exact_add url d.exact; bloom = bloom_add url d.bloom }, true)
