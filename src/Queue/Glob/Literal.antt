-- ===== src/Queue/Glob/Literal.antt =====
-- internal/queue/glob.go: patterns that are a text without `*`, `?` and `[`, alone or before `**`.
use mathlib.Core.Path.{subst₂}
use mathlib.Core.List.{append_assoc}
use omegacrawl.Base.{
  ℕ, ◌+◌, ◌≡◌, ◌≢◌, refl, ◌∙◌, true, false, List, [], ◌∷◌, ◌++◌, none, some, All, ◌==◌, length,
  drop, get_elem?, arith, length-append, inl, inr, Bool-cases,
}
use omegacrawl.Errors.Classify.{codes}
use omegacrawl.Errors.Contains.{bytes_equal, contains, contains_iff}
use omegacrawl.Robots.Match.{has_prefix}
use omegacrawl.Queue.Glob.{
  glob_from, all_stars, glob_match_simple, split_stars, match_parts, middle_parts, ends_in_stars,
  glob_match_with_double_star, glob_match,
}

-- The text has none of the bytes `*`, `?` and `[`.
abbrev pub IsLiteral : List ℕ → Type 0
IsLiteral l = All (λ b. (b ≢ 42) × ((b ≢ 63) × (b ≢ 91))) l

get_elem?-append : (a : List ℕ) (c : ℕ) (b : List ℕ) → get_elem? (a ++ c ∷ b) (length a) ≡ some c
get_elem?-append [] c b = refl
get_elem?-append (x ∷ a) c b = get_elem?-append a c b

drop-append : (a b : List ℕ) → drop (length a) (a ++ b) ≡ b
drop-append [] b = refl
drop-append (x ∷ a) b = drop-append a b

get_elem?-end : (a : List ℕ) → get_elem? (a ++ []) (length a) ≡ none
get_elem?-end [] = refl
get_elem?-end (x ∷ a) = get_elem?-end a

glob_from-literal :
    (a b s : List ℕ) → IsLiteral b → glob_from (a ++ b) none (length a) s ≡ bytes_equal b s
unfolding glob_from bytes_equal all_stars
glob_from-literal a [] [] h = rw (drop-append a []) (ground (arith, length-append a []))
glob_from-literal a (x ∷ b) [] ((n, _), t) = rw (drop-append a (x ∷ b)) (ground (arith, n))
glob_from-literal a [] (c ∷ s) h = rw (glob_from, get_elem?-end a) refl
glob_from-literal a (x ∷ b) (c ∷ s) ((n, (m, k)), t) =
    let later : glob_from (a ++ x ∷ b) none (length a + 1) s ≡ bytes_equal b s =
      subst₂ (λ l i. glob_from l none i s ≡ bytes_equal b s) (append_assoc a (x ∷ []) b)
        (length-append a (x ∷ []) ∙ omega arith) (glob_from-literal (a ++ x ∷ []) b s t) in
    rw (glob_from, get_elem?-append a x b, later) (ground (arith, n, m, k))

-- A pattern that is a literal text matches that text alone.
glob_match_simple-literal : (l s : List ℕ) → IsLiteral l → glob_match_simple l s ≡ bytes_equal l s
unfolding glob_match_simple
glob_match_simple-literal l s h = glob_from-literal [] l s h

split_stars-literal : (l : List ℕ) → IsLiteral l → split_stars (l ++ codes "**") ≡ l ∷ [] ∷ []
unfolding split_stars
split_stars-literal [] h = refl
split_stars-literal (c ∷ []) ((n, _), h) =
    let ne : (c == 42) ≡ false = ground (arith, n) in rw ne refl
split_stars-literal (c ∷ d ∷ l) ((n, _), h) =
    let ne : (c == 42) ≡ false = ground (arith, n) in rw (ne, split_stars-literal (d ∷ l) h) refl

ends_in_stars-append : (l : List ℕ) → ends_in_stars (l ++ codes "**") ≡ true
unfolding ends_in_stars
ends_in_stars-append [] = refl
ends_in_stars-append (c ∷ []) = refl
ends_in_stars-append (c ∷ d ∷ []) = refl
ends_in_stars-append (c ∷ d ∷ e ∷ l) = ends_in_stars-append (d ∷ e ∷ l)

-- A literal text that is not empty, with `**` after it, matches that text alone: it is not the prefix
-- of whatever text, as the comment on `**` says.
pub glob_match-prefix :
    (c : ℕ) (l s : List ℕ)
    → IsLiteral (c ∷ l)
    → glob_match ((c ∷ l) ++ codes "**") s ≡ some (bytes_equal (c ∷ l) s)
unfolding glob_match glob_match_with_double_star match_parts middle_parts has_prefix
glob_match-prefix c l s h =
    let pattern = (c ∷ l) ++ codes "**" in
    let ne : (c == 42) ≡ false = ground (arith, h.0.0) in
    let stars : contains pattern (codes "**") ≡ true =
      (contains_iff pattern (codes "**")).1 (c ∷ l, [], refl) in
    rw
      (
        glob_match,
        stars,
        glob_match_with_double_star,
        split_stars-literal (c ∷ l) h,
        ne,
        glob_match_simple-literal (c ∷ l) s h,
      )
      (elim (Bool-cases (bytes_equal (c ∷ l) s)) [
        | inl e ↦ rw (e, match_parts, ends_in_stars-append (c ∷ l)) refl
        | inr e ↦ rw e refl
      ])

star_from-fails :
    (x : ℕ) (u : List ℕ)
    → IsLiteral (x ∷ [])
    → All (λ b. (b ≢ 47) × (b ≢ x)) u
    → glob_from (42 ∷ x ∷ []) (some x) 1 (u ++ x ∷ []) ≡ false
unfolding glob_from all_stars
star_from-fails x [] ((n, (m, k)), h) t = ground (arith, n, m, k)
star_from-fails x (c ∷ u) ((n, (m, k)), h) ((a, b), t) =
    ground (arith, n, m, k, a, b, star_from-fails x u ((n, (m, k)), h) t)

-- A star and a byte after it do not match a text that ends in this byte and has it nowhere else, nor a
-- slash: the byte at which the star ends is passed over, and then looked for again.
pub glob_match_simple-star :
    (x : ℕ) (u : List ℕ)
    → IsLiteral (x ∷ [])
    → All (λ b. (b ≢ 47) × (b ≢ x)) u
    → glob_match_simple (42 ∷ x ∷ []) (u ++ x ∷ []) ≡ false
unfolding glob_match_simple glob_from all_stars
glob_match_simple-star x [] ((n, (m, k)), h) t = ground (arith, n, m, k)
glob_match_simple-star x (c ∷ u) ((n, (m, k)), h) ((a, b), t) =
    ground (arith, n, m, k, a, b, star_from-fails x u ((n, (m, k)), h) t)
