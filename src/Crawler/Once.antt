-- ===== src/Crawler/Once.antt =====
-- internal/crawler/queueing.go: what the two filters of `shouldQueue` decide, of a call that no other overlaps.
use Prim.Native.String.{String}
use omegacrawl.Base.{ℕ, ◌≡◌, true, not, ◌&&◌, arith}
use omegacrawl.Crawler.Admit.{Filters, Policy, Dedup, should_queue, within_policy}

module _ (F : Filters) (p : Policy) where
  -- What the exact set holds, the Bloom filter reports too.
  pub record IsCovered (d : Dedup F) : Type 0 where
    pub covered : (u : String) → F.exact_contains u d.exact ≡ true → F.has_seen u d.bloom ≡ true

  kept_covered :
      (total size : ℕ) (url u : String) (d : Dedup F)
      → IsCovered d
      → F.exact_contains u (should_queue F p total size url d).0.exact ≡ true
      → F.has_seen u (should_queue F p total size url d).0.bloom ≡ true
  unfolding should_queue
  kept_covered total size url u d c = ground (
    arith,
    c.covered u,
    F.contains-exact_add url u d.exact,
    F.has_seen-add url u d.bloom,
    F.has_seen-add_self url d.bloom,
  )

  pub should_queue-IsCovered :
      (total size : ℕ) (url : String) (d : Dedup F)
      → IsCovered d
      → IsCovered (should_queue F p total size url d).0
  should_queue-IsCovered total size url d c = record {
    covered = λ u. kept_covered total size url u d c;
  }

  -- While the exact set holds only what was also put into the Bloom filter, the Bloom filter alone
  -- decides about a URL that meets the policy: a false positive drops it.
  pub should_queue_answer :
      (total size : ℕ) (url : String) (d : Dedup F)
      → IsCovered d
      → (should_queue F p total size url d).1
        ≡ (within_policy F p total size url && not (F.has_seen url d.bloom))
  unfolding should_queue
  should_queue_answer total size url d c = ground (arith, c.covered url)
