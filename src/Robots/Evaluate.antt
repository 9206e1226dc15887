-- ===== src/Robots/Evaluate.antt =====
-- internal/robots/rules.go: `evaluateRules`, without the paths of the rules that it only logs.
-- Durations are nanoseconds.
use omegacrawl.Base.{
  ℕ, Bool, true, false, ◌&&◌, ◌||◌, List, [], ◌∷◌, ltb, leb, if◌then◌else◌, length,
}
use omegacrawl.Base.Int.{ℤ, pos, not_positive}
use omegacrawl.Robots.Match.{match_path}

pub record RobotsEntry : Type 0 where
  pub allow : List (List ℕ)
  pub disallow : List (List ℕ)
  pub crawl_delay : ℤ
  pub sitemaps : List (List ℕ)
  pub fetched_at : ℕ
  pub transient : Bool

module _ (compiles : List ℕ → Bool) where
  -- A loop over the rules, from the score so far.
  unfoldable pub best_score : List ℕ → ℕ → List (List ℕ) → ℕ
  best_score path score [] = score
  best_score path score (rule ∷ rules) =
      best_score path
        (if match_path compiles rule path && ltb score (length rule) then length rule else score)
        rules

  abbrev pub or_root : List ℕ → List ℕ
  or_root [] = b'/' ∷ []
  or_root (c ∷ path) = c ∷ path

  unfoldable pub evaluate_rules : RobotsEntry → List ℕ → ℤ → Bool × ℤ
  evaluate_rules entry path crawl_delay =
      let allow_score = best_score (or_root path) 0 entry.allow in
      let disallow_score = best_score (or_root path) 0 entry.disallow in
      let delay = if not_positive entry.crawl_delay then crawl_delay else entry.crawl_delay in
      if ltb 0 allow_score || ltb 0 disallow_score
      then (if leb disallow_score allow_score then (true, delay) else (false, pos 0))
      else (true, delay)
