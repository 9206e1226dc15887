-- ===== src/Robots/Groups.antt =====
-- internal/robots/rules.go: which groups of a robots.txt count.
use omegacrawl.Base.{
  ℕ, ◌≡◌, refl, ◌∙◌, ◌||◌, Option-cases, inl, inr, true, false, List, [], ◌∷◌, Option, arith,
  Bool-cases,
}
use omegacrawl.Base.Int.{ℤ}
use omegacrawl.Errors.Classify.{codes}
use omegacrawl.Robots.Evaluate.{RobotsEntry}
use omegacrawl.Robots.Parse.{
  Parsing, user_agent_line, disallow_line, allow_line, sitemap_line, crawl_delay_line, directive,
  trimmed_line, trim_space, to_lower, split_colon, read_lines, is_nil,
}
use omegacrawl.Robots.Match.{has_prefix}

-- The rules and the delay of two entries are the same.
pub record SameRules (a b : RobotsEntry) : Type 0 where
  pub allow : a.allow ≡ b.allow
  pub disallow : a.disallow ≡ b.disallow
  pub crawl_delay : a.crawl_delay ≡ b.crawl_delay

module _ (parse_seconds : List ℕ → Option ℤ) where
  -- A group for the agent was met, and it has ended.
  abbrev pub IsClosed : Parsing → Type 0
  IsClosed p = (p.matched_specific ≡ true) × (p.in_our_agent ≡ false)

  directive-IsClosed :
      (ua key value : List ℕ) (p : Parsing)
      → IsClosed p
      → IsClosed (directive parse_seconds ua key value p)
        × SameRules (directive parse_seconds ua key value p).entry p.entry
  unfolding directive user_agent_line disallow_line allow_line sitemap_line crawl_delay_line
  directive-IsClosed ua key value p (m, f) = ground arith

  trimmed-IsClosed :
      (ua line : List ℕ) (p : Parsing)
      → IsClosed p
      → IsClosed (trimmed_line parse_seconds ua line p)
        × SameRules (trimmed_line parse_seconds ua line p).entry p.entry
  unfolding trimmed_line
  trimmed-IsClosed ua line p c = elim (Bool-cases (is_nil line || has_prefix line (codes "#"))) [
    | inl e ↦ rw (e, trimmed_line) (c, record { allow = refl; disallow = refl; crawl_delay = refl })
    | inr e ↦ elim (Option-cases (split_colon line)) [
      | inl n ↦
          rw (e, trimmed_line, n) (c, record { allow = refl; disallow = refl; crawl_delay = refl })
      | inr ((key, value), n) ↦
          rw (e, trimmed_line, n)
            (directive-IsClosed ua (trim_space (to_lower key)) (trim_space value) p c)
    ]
  ]

  -- Once a group for the crawler's own agent was met and another group has begun, no further line
  -- changes the rules or the delay, and the crawler's group stays over.
  pub read_lines-IsClosed :
      (ua : List ℕ) (lines : List (List ℕ)) (p : Parsing)
      → IsClosed p
      → IsClosed (read_lines parse_seconds ua lines p)
        × SameRules (read_lines parse_seconds ua lines p).entry p.entry
  unfolding read_lines
  read_lines-IsClosed ua [] p c = (c, record { allow = refl; disallow = refl; crawl_delay = refl })
  read_lines-IsClosed ua (line ∷ lines) p c =
      let (d, s) = trimmed-IsClosed ua (trim_space line) p c in
      let (d', s') = read_lines-IsClosed ua lines _ d in
      (
        d',
        record {
          allow = s'.allow ∙ s.allow;
          disallow = s'.disallow ∙ s.disallow;
          crawl_delay = s'.crawl_delay ∙ s.crawl_delay;
        },
      )
