-- ===== src/Robots/Parse.antt =====
-- internal/robots/rules.go: how `fetchRobots` reads the body of a robots.txt. White space and case
-- are those of ASCII. `parse_seconds` is `time.ParseDuration` of a value with "s" after it.
use omegacrawl.Base.{
  ℕ, ◌+◌, Bool, true, false, not, ◌&&◌, ◌||◌, List, [], ◌∷◌, ◌++◌, Option, none, some, leb, ◌==◌,
  if◌then◌else◌,
}
use omegacrawl.Base.Int.{ℤ, pos}
use omegacrawl.Errors.Classify.{codes}
use omegacrawl.Errors.Contains.{bytes_equal, contains}
use omegacrawl.Robots.Evaluate.{RobotsEntry}
use omegacrawl.Robots.Match.{has_prefix}

abbrev is_space : ℕ → Bool
is_space c = c == 32 || (leb 9 c && leb c 13)

unfoldable pub trim_left : List ℕ → List ℕ
trim_left [] = []
trim_left (c ∷ s) = let rest = trim_left s in if is_space c then rest else c ∷ s

abbrev pub is_nil : List ℕ → Bool
is_nil [] = true
is_nil (c ∷ s) = false

unfoldable pub trim_right : List ℕ → List ℕ
trim_right [] = []
trim_right (c ∷ s) = let rest = trim_right s in if is_space c && is_nil rest then [] else c ∷ rest

-- `strings.TrimSpace`
unfoldable pub trim_space : List ℕ → List ℕ
trim_space s = trim_right (trim_left s)

unfoldable pub to_lower : List ℕ → List ℕ
to_lower [] = []
to_lower (c ∷ s) = (if leb 65 c && leb c 90 then c + 32 else c) ∷ to_lower s

-- `strings.SplitN(line, ":", 2)`, where it gives two parts.
unfoldable pub split_colon : List ℕ → Option (List ℕ × List ℕ)
split_colon [] = none
split_colon (c ∷ s) =
    let rest = split_colon s in
    if c == b':'
    then some ([], s)
    else elim rest [ none ↦ none | some (key, value) ↦ some (c ∷ key, value) ]

abbrev cons_first : ℕ → List (List ℕ) → List (List ℕ)
cons_first c [] = (c ∷ []) ∷ []
cons_first c (line ∷ lines) = (c ∷ line) ∷ lines

-- `strings.Split(body, "\n")`
unfoldable pub split_lines : List ℕ → List (List ℕ)
split_lines [] = [] ∷ []
split_lines (c ∷ s) = if c == 10 then [] ∷ split_lines s else cons_first c (split_lines s)

unfoldable pub match_user_agent : List ℕ → List ℕ → Bool
match_user_agent pattern ua =
    if bytes_equal pattern (codes "*") then true else contains (to_lower ua) (to_lower pattern)

-- The variables of the loop.
pub record Parsing : Type 0 where
  pub entry : RobotsEntry
  pub in_our_agent : Bool
  pub matched_specific : Bool

unfoldable pub user_agent_line : List ℕ → List ℕ → Parsing → Parsing
user_agent_line ua value p =
    let is_wildcard = bytes_equal value (codes "*") in
    let is_match = match_user_agent value ua in
    if p.matched_specific
    then record p { in_our_agent = false }
    else if not is_wildcard && is_match
    then record p { matched_specific = true; in_our_agent = true }
    else if is_wildcard && not p.matched_specific
    then record p { in_our_agent = true }
    else record p { in_our_agent = false }

unfoldable pub disallow_line : List ℕ → Parsing → Parsing
disallow_line value p =
    if p.in_our_agent && not (is_nil value)
    then record p { entry = record p.entry { disallow = p.entry.disallow ++ value ∷ [] } }
    else p

unfoldable pub allow_line : List ℕ → Parsing → Parsing
allow_line value p =
    if p.in_our_agent && not (is_nil value)
    then record p { entry = record p.entry { allow = p.entry.allow ++ value ∷ [] } }
    else p

unfoldable pub sitemap_line : List ℕ → Parsing → Parsing
sitemap_line value p = record p {
  entry = record p.entry { sitemaps = p.entry.sitemaps ++ value ∷ [] };
}

module _ (parse_seconds : List ℕ → Option ℤ) where
  unfoldable pub crawl_delay_line : List ℕ → Parsing → Parsing
  crawl_delay_line value p =
      if p.in_our_agent
      then elim (parse_seconds value) [
        | none ↦ p
        | some delay ↦ record p { entry = record p.entry { crawl_delay = delay } }
      ]
      else p

  -- The `switch` on the key.
  unfoldable pub directive : List ℕ → List ℕ → List ℕ → Parsing → Parsing
  directive ua key value p =
      if bytes_equal key (codes "user-agent")
      then user_agent_line ua value p
      else if bytes_equal key (codes "disallow")
      then disallow_line value p
      else if bytes_equal key (codes "allow")
      then allow_line value p
      else if bytes_equal key (codes "crawl-delay")
      then crawl_delay_line value p
      else if bytes_equal key (codes "sitemap")
      then sitemap_line value p
      else p

  unfoldable pub trimmed_line : List ℕ → List ℕ → Parsing → Parsing
  trimmed_line ua line p =
      if is_nil line || has_prefix line (codes "#") then p else elim (split_colon line) [
        | none ↦ p
        | some (key, value) ↦ directive ua (trim_space (to_lower key)) (trim_space value) p
      ]

  unfoldable pub read_lines : List ℕ → List (List ℕ) → Parsing → Parsing
  read_lines ua [] p = p
  read_lines ua (line ∷ lines) p = read_lines ua lines (trimmed_line ua (trim_space line) p)

  abbrev pub empty_entry : ℕ → RobotsEntry
  empty_entry now = record {
    allow = [];
    disallow = [];
    crawl_delay = pos 0;
    sitemaps = [];
    fetched_at = now;
    transient = false;
  }

  unfoldable pub read_body : ℕ → List ℕ → List ℕ → RobotsEntry
  read_body now ua body =
      (read_lines ua (split_lines body)
        (record { entry = empty_entry now; in_our_agent = false; matched_specific = false })).entry
