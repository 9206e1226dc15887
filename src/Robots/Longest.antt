-- ===== src/Robots/Longest.antt =====
-- internal/robots/rules.go: `evaluateRules` follows the longest rule that matches.
use omegacrawl.Base.{
  ℕ, ◌≤◌, ◌<◌, ◌≡◌, refl, sym, ap, ◌∙◌, ◌↔◌, ◌⊎◌, inl, inr, Bool, true, false, List, [], ◌∷◌, ltb,
  length, arith, Bool-cases,
}
use omegacrawl.Base.Int.{ℤ}
use omegacrawl.Sync.Keyed.{Has}
use omegacrawl.Robots.Match.{match_path}
use omegacrawl.Robots.Evaluate.{RobotsEntry, best_score, or_root, evaluate_rules}

module _ (compiles : List ℕ → Bool) where
  best_score-ge :
      (path : List ℕ) (score : ℕ) (rules : List (List ℕ))
      → score ≤ best_score compiles path score rules
  unfolding best_score
  best_score-ge path score [] = omega arith
  best_score-ge path score (r ∷ rules) =
      ground (arith, best_score-ge path score rules, best_score-ge path (length r) rules)

  -- No rule that matches is longer than the score.
  best_score-bound :
      (path rule : List ℕ) (rules : List (List ℕ)) (score : ℕ)
      → Has rule rules
      → match_path compiles rule path ≡ true
      → length rule ≤ best_score compiles path score rules
  unfolding best_score
  best_score-bound path rule [] score h m = absurd h
  best_score-bound path rule (r ∷ rules) score (inl e) m =
      let l : length r ≡ length rule = ap length e in
      let k : match_path compiles r path ≡ true = ap (λ x. match_path compiles x path) e ∙ m in
      ground (arith, best_score-ge path score rules, best_score-ge path (length r) rules)
  best_score-bound path rule (r ∷ rules) score (inr h) m = best_score-bound path rule rules _ h m

  abbrev Longest : List ℕ → ℕ → List (List ℕ) → Type 0
  Longest path n rules =
      (rule : List ℕ) × Has rule rules × (match_path compiles rule path ≡ true) × (length rule ≡ n)

  -- The score is the one it began with, or the length of a rule that matches.
  best_score-attained :
      (path : List ℕ) (score : ℕ) (rules : List (List ℕ))
      → (best_score compiles path score rules ≡ score)
        ⊎ Longest path (best_score compiles path score rules) rules
  unfolding best_score
  best_score-attained path score [] = inl refl
  best_score-attained path score (r ∷ rules) = elim (Bool-cases (match_path compiles r path)) [
    | inl m ↦ elim (Bool-cases (ltb score (length r))) [
      | inl l ↦
          rw (m, l)
            (elim (best_score-attained path (length r) rules) [
              | inl e ↦ inr (r, inl refl, m, sym e)
              | inr (s, h, k, e) ↦ inr (s, inr h, k, e)
            ])
      | inr l ↦ rw (m, l) (later r (best_score-attained path score rules))
    ]
    | inr m ↦ rw m (later r (best_score-attained path score rules))
  ]
    where
      later :
          (r : List ℕ)
          → (best_score compiles path score rules ≡ score)
            ⊎ Longest path (best_score compiles path score rules) rules
          → (best_score compiles path score rules ≡ score)
            ⊎ Longest path (best_score compiles path score rules) (r ∷ rules)
      later r (inl e) = inl e
      later r (inr (s, h, k, e)) = inr (s, inr h, k, e)

  matched-nonempty : (path rule : List ℕ) → match_path compiles rule path ≡ true → 0 < length rule
  unfolding match_path
  matched-nonempty path [] m = cc
  matched-nonempty path (c ∷ rule) m = omega arith

  -- Some disallowed rule matches that is longer than every allowed rule that matches.
  abbrev pub Blocked : RobotsEntry → List ℕ → Type 0
  Blocked entry path =
      (rule : List ℕ) × Has rule entry.disallow
      × (match_path compiles rule path ≡ true)
      × ((other : List ℕ)
          → Has other entry.allow
          → match_path compiles other path ≡ true
          → length other < length rule)

  scores_iff :
      (entry : RobotsEntry) (path : List ℕ)
      → (best_score compiles path 0 entry.allow < best_score compiles path 0 entry.disallow)
        ↔ Blocked entry path
  scores_iff entry path = (
    λ l. elim (best_score-attained path 0 entry.disallow) [
      | inl e ↦ absurd (omega (arith, e, l))
      | inr (r, h, m, e) ↦
          (r, h, m, λ o k n. omega (arith, best_score-bound path o entry.allow 0 k n, e, l))
    ],
    λ b.
        let (r, h, m, f) = b in
        let d = best_score-bound path r entry.disallow 0 h m in
        elim (best_score-attained path 0 entry.allow) [
          | inl e ↦ omega (arith, matched-nonempty path r m, d, e)
          | inr (o, k, n, e) ↦ omega (arith, f o k n, d, e)
        ],
  )

  -- A path (the root for an empty one) is refused exactly when some disallowed rule matches it
  -- that is longer than every allowed rule that matches it.
  pub evaluate_rules-Blocked :
      (entry : RobotsEntry) (path : List ℕ) (crawl_delay : ℤ)
      → ((evaluate_rules compiles entry path crawl_delay).0 ≡ false)
        ↔ Blocked entry (or_root compiles path)
  unfolding evaluate_rules
  evaluate_rules-Blocked entry path crawl_delay =
      let (there, back) = scores_iff entry (or_root compiles path) in
      (λ h. there (ground arith), λ b. let l = back b in ground arith)
