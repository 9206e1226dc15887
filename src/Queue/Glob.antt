-- ===== src/Queue/Glob.antt =====
-- internal/queue/glob.go: the patterns that block URLs and routes, over bytes, with `pathStyle` true,
-- which is how they are called. `p` is an index into the pattern.
use omegacrawl.Base.{
  ℕ, zero, suc, ◌+◌, ◌-◌, Bool, true, false, not, ◌&&◌, ◌||◌, List, [], ◌∷◌, ◌++◌, Option, none,
  some, ltb, leb, ◌==◌, if◌then◌else◌, length, take, drop, get_elem?,
}
use omegacrawl.Errors.Classify.{codes}
use omegacrawl.Errors.Contains.{contains}
use omegacrawl.Robots.Match.{has_prefix}
pub mod Literal
mod Examples

-- The index of the `]` that ends a class, or the length of the pattern.
unfoldable pub skip_to_close : ℕ → List ℕ → ℕ
skip_to_close p [] = p
skip_to_close p (x ∷ rest) = let after = skip_to_close (p + 1) rest in if x == 93 then p else after

-- The loop of `matchBracket` from index `p` on, where the pattern has `rest`.
unfoldable pub bracket_from : Bool → ℕ → ℕ → List ℕ → Bool × ℕ
unfolding skip_to_close
bracket_from negate c p [] = (negate, p)
bracket_from negate c p (x ∷ []) =
    if x == 93 then (negate, p) else if x == c then (not negate, p + 1) else (negate, p + 1)
bracket_from negate c p (x ∷ y ∷ []) =
    let next = bracket_from negate c (p + 1) (y ∷ []) in
    if x == 93
    then (negate, p)
    else if x == c
    then (not negate, skip_to_close (p + 1) (y ∷ []))
    else next
bracket_from negate c p (x ∷ y ∷ z ∷ rest) =
    let past_range = bracket_from negate c (p + 3) rest in
    let next = bracket_from negate c (p + 1) (y ∷ z ∷ rest) in
    if x == 93
    then (negate, p)
    else if y == 45 && not (z == 93)
    then if leb x c && leb c z then (not negate, skip_to_close (p + 3) rest) else past_range
    else if x == c
    then (not negate, skip_to_close (p + 1) (y ∷ z ∷ rest))
    else next

-- `matchBracket`: the answer, and the index that it leaves.
unfoldable pub match_bracket : List ℕ → ℕ → ℕ → Bool × ℕ
unfolding bracket_from
match_bracket pattern p c = elim (get_elem? pattern (p + 1)) [
  | none ↦ (false, p + 1)
  | some b ↦
      if b == 33 || b == 94
      then bracket_from true c (p + 2) (drop (p + 2) pattern)
      else bracket_from false c (p + 1) (drop (p + 1) pattern)
]

unfoldable pub all_stars : List ℕ → Bool
all_stars [] = true
all_stars (x ∷ rest) = x == 42 && all_stars rest

unfoldable pub has_slash : List ℕ → Bool
has_slash [] = false
has_slash (x ∷ s) = x == 47 || has_slash s

-- One round of the loop of a star at the byte `c`: where it ends, and how it goes on where a class is
-- asked (`m` is whether it matches).
abbrev star_step : ℕ → ℕ → Bool → Bool → Bool → Bool → Bool → Bool
star_step next c m here there on off =
    if c == 47 || (c == next || next == 63)
    then here
    else if next == 91
    then (if m then there else off)
    else on

-- The loop of `globMatchSimple` over the text, at index `p` of the pattern; with `some next` it is in
-- the loop of a star, before the pattern's byte `next`. The byte at which that loop ends is passed over.
unfoldable pub glob_from : List ℕ → Option ℕ → ℕ → List ℕ → Bool
unfolding match_bracket all_stars has_slash
glob_from pattern none p [] = leb p (length pattern) && all_stars (drop p pattern)
glob_from pattern (some next) p [] = false
glob_from pattern none p (c ∷ s) =
    let literal = glob_from pattern none (p + 1) s in
    let (matches, end) = match_bracket pattern p c in
    let class = glob_from pattern none (end + 1) s in
    let (m, e) = match_bracket pattern (p + 1) c in
    let there = glob_from pattern none e s in
    let on : ℕ → Bool = λ next. glob_from pattern (some next) (p + 1) s in
    let off : ℕ → Bool = λ next. glob_from pattern (some next) e s in
    elim (get_elem? pattern p) [
      | none ↦ false
      | some b ↦
          if b == 42
          then elim (get_elem? pattern (p + 1)) [
            | none ↦ not (has_slash (c ∷ s))
            | some next ↦ star_step next c m literal there (on next) (off next)
          ]
          else if b == 63
          then not (c == 47) && literal
          else if b == 91
          then matches && class
          else b == c && literal
    ]
glob_from pattern (some next) p (c ∷ s) =
    let (m, e) = match_bracket pattern p c in
    let here = glob_from pattern none p s in
    let there = glob_from pattern none e s in
    let on = glob_from pattern (some next) p s in
    let off = glob_from pattern (some next) e s in star_step next c m here there on off

unfoldable pub glob_match_simple : List ℕ → List ℕ → Bool
unfolding glob_from
glob_match_simple pattern s = glob_from pattern none 0 s

abbrev cons_first : ℕ → List (List ℕ) → List (List ℕ)
cons_first c [] = (c ∷ []) ∷ []
cons_first c (p ∷ ps) = (c ∷ p) ∷ ps

-- `strings.Split(pattern, "**")`
unfoldable pub split_stars : List ℕ → List (List ℕ)
split_stars [] = [] ∷ []
split_stars (c ∷ []) = (c ∷ []) ∷ []
split_stars (c ∷ d ∷ rest) =
    let parts = split_stars rest in
    let later = split_stars (d ∷ rest) in
    if c == 42 && d == 42 then [] ∷ parts else cons_first c later

-- The index at which the search for a middle part from index `i` ends: `n` ends are left to try, the
-- next one being `j`.
unfoldable pub find_part : List ℕ → List ℕ → ℕ → ℕ → ℕ → Option ℕ
find_part part s i j zero = none
find_part part s i j (suc n) =
    let later = find_part part s i (j + 1) n in
    if glob_match_simple part (take (j - i) (drop i s)) then some j else later

-- The loop over the middle parts: the index that is reached, or `none` where a part is not found.
unfoldable pub middle_parts : List (List ℕ) → List ℕ → ℕ → Option ℕ
unfolding find_part
middle_parts [] s i = some i
middle_parts ([] ∷ parts) s i = middle_parts parts s i
middle_parts ((c ∷ part) ∷ parts) s i = elim (find_part (c ∷ part) s i i (length s + 1 - i)) [
  | none ↦ none
  | some j ↦ middle_parts parts s j
]

abbrev but_last : List (List ℕ) → List (List ℕ)
but_last [] = []
but_last (p ∷ []) = []
but_last (p ∷ q ∷ ps) = p ∷ but_last (q ∷ ps)

abbrev last_part : List (List ℕ) → List ℕ
last_part [] = []
last_part (p ∷ []) = p
last_part (p ∷ q ∷ ps) = last_part (q ∷ ps)

unfoldable pub ends_in_stars : List ℕ → Bool
ends_in_stars [] = false
ends_in_stars (c ∷ []) = false
ends_in_stars (c ∷ d ∷ []) = c == 42 && d == 42
ends_in_stars (c ∷ d ∷ e ∷ rest) = ends_in_stars (d ∷ e ∷ rest)

-- The middle parts and the last one from index `i` on; `none` is the panic of an index past the end.
unfoldable pub match_parts : List ℕ → List (List ℕ) → List ℕ → ℕ → Option Bool
unfolding middle_parts ends_in_stars
match_parts pattern parts s i = elim (middle_parts (but_last parts) s i) [
  | none ↦ some false
  | some j ↦
      if ends_in_stars pattern
      then some true
      else if ltb (length s) j
      then none
      else some (glob_match_simple (last_part parts) (drop j s))
]

-- `globMatchWithDoubleStar`
unfoldable pub glob_match_with_double_star : List ℕ → List ℕ → Option Bool
unfolding split_stars match_parts
glob_match_with_double_star pattern s = elim (split_stars pattern) [
  | [] ↦ some (glob_match_simple pattern s)
  | first ∷ rest ↦ elim rest [
    | [] ↦ some (glob_match_simple pattern s)
    | second ∷ more ↦
        if has_prefix pattern (codes "**")
        then match_parts pattern (first ∷ second ∷ more) s 0
        else if glob_match_simple first s
        then match_parts pattern (second ∷ more) s (length first)
        else some false
  ]
]

-- `GlobMatch`
unfoldable pub glob_match : List ℕ → List ℕ → Option Bool
unfolding glob_match_with_double_star
glob_match pattern s =
    if contains pattern (codes "**")
    then glob_match_with_double_star pattern s
    else some (glob_match_simple pattern s)

-- `strings.ReplaceAll(s, "\\", "/")`
unfoldable pub to_slashes : List ℕ → List ℕ
to_slashes [] = []
to_slashes (c ∷ s) = (if c == 92 then 47 else c) ∷ to_slashes s

unfoldable pub path_glob_match : List ℕ → List ℕ → Option Bool
unfolding glob_match to_slashes
path_glob_match pattern url_path = glob_match (to_slashes pattern) (to_slashes url_path)

-- `URLGlobMatch`; `path_of` is the path of a URL that net/url parses.
unfoldable pub url_glob_match : (List ℕ → Option (List ℕ)) → List ℕ → List ℕ → Option Bool
unfolding glob_match path_glob_match
url_glob_match path_of pattern raw_url =
    if has_prefix pattern (codes "/")
    then elim (path_of raw_url) [ none ↦ some false | some path ↦ path_glob_match pattern path ]
    else glob_match pattern raw_url
