-- ===== src/Crawler/Overlap.antt =====
-- internal/crawler/queueing.go: calls of `shouldQueue` that overlap, since each holds `queueMu` only for
-- reading. The exact set and the Bloom filter have locks of their own: each of their calls is a step.
use Prim.Native.String.{String}
use text.Mathlib.Text.{◌==◌}
use text.Mathlib.TextEquality.{eq_iff}
use omegacrawl.Base.{
  ℕ, zero, suc, ◌+◌, ◌≤◌, ◌≡◌, refl, ap, ◌∙◌, Bool, true, false, not, ◌&&◌, List, [], ◌∷◌,
  if◌then◌else◌, arith,
}
use omegacrawl.Crawler.Admit.{Filters, Policy, Dedup, should_queue, within_policy}
pub mod Passes

-- Where a call stands: it passed the tests before the filters and is not in the exact set, it is in
-- neither filter, it was added to the Bloom filter, or it has returned.
pub data Phase : Type 0 where
  entering : Phase
  missed_exact : Phase
  missed_both : Phase
  added_bloom : Phase
  passed : Phase
  refused : Phase

pub record Call : Type 0 where
  pub url : String
  pub phase : Phase

-- The call is for the URL and is past its test of the Bloom filter: it will pass, or has passed.
unfoldable pub is_through : Phase → Bool
is_through entering = false
is_through missed_exact = false
is_through missed_both = true
is_through added_bloom = true
is_through passed = true
is_through refused = false

unfoldable pub has_passed : Phase → Bool
has_passed entering = false
has_passed missed_exact = false
has_passed missed_both = false
has_passed added_bloom = false
has_passed passed = true
has_passed refused = false

unfoldable pub through : String → List Call → ℕ
unfolding is_through
through u [] = 0
through u (c ∷ calls) = (if is_through c.phase && c.url == u then 1 else 0) + through u calls

unfoldable pub passed_calls : String → List Call → ℕ
unfolding has_passed
passed_calls u [] = 0
passed_calls u (c ∷ calls) =
    (if has_passed c.phase && c.url == u then 1 else 0) + passed_calls u calls

-- A call begins, or the one at an index takes its next step.
pub data CallEvent : Type 0 where
  begins : String → CallEvent
  moves : ℕ → ℕ → ℕ → CallEvent

module _ (F : Filters) (p : Policy) where
  -- A step of a call; `total` URLs are crawled and `size` are queued when it enters.
  unfoldable pub move : ℕ → ℕ → String → Phase → Dedup F → Phase × Dedup F
  move total size url entering d =
      if not (within_policy F p total size url)
      then (refused, d)
      else if F.exact_contains url d.exact
      then (refused, d)
      else (missed_exact, d)
  move total size url missed_exact d =
      if F.has_seen url d.bloom then (refused, d) else (missed_both, d)
  move total size url missed_both d = (added_bloom, record d { bloom = F.bloom_add url d.bloom })
  move total size url added_bloom d = (passed, record d { exact = F.exact_add url d.exact })
  move total size url passed d = (passed, d)
  move total size url refused d = (refused, d)

  unfoldable pub move_at : ℕ → ℕ → ℕ → List Call → Dedup F → List Call × Dedup F
  unfolding move
  move_at i total size [] d = ([], d)
  move_at zero total size (c ∷ calls) d =
      let (phase, d') = move total size c.url c.phase d in (record c { phase = phase } ∷ calls, d')
  move_at (suc i) total size (c ∷ calls) d =
      let (rest, d') = move_at i total size calls d in (c ∷ rest, d')

  unfoldable pub happens : CallEvent → List Call × Dedup F → List Call × Dedup F
  unfolding move_at
  happens (begins url) (calls, d) = (record { url = url; phase = entering } ∷ calls, d)
  happens (moves i total size) (calls, d) = move_at i total size calls d

  unfoldable pub interleaved : List CallEvent → List Call × Dedup F → List Call × Dedup F
  unfolding happens
  interleaved [] s = s
  interleaved (e ∷ es) s = interleaved es (happens e s)
