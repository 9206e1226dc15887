-- ===== src/Robots/Match.antt =====
-- internal/robots/rules.go: `matchPath`. A rule with a star is compiled to a regular expression, the
-- rule quoted and each star `.*`, anchored at its start only; `wildcard` is what that expression
-- matches (the dot is any byte but a newline).
use omegacrawl.Base.{
  ℕ, ◌≡◌, ◌≢◌, refl, ◌↔◌, inl, inr, Bool, true, false, not, ◌&&◌, ◌||◌, List, [], ◌∷◌, ◌==◌,
  if◌then◌else◌, arith, Bool-cases,
}

-- `strings.HasPrefix`
unfoldable pub has_prefix : List ℕ → List ℕ → Bool
has_prefix s [] = true
has_prefix [] (c ∷ prefix) = false
has_prefix (x ∷ s) (c ∷ prefix) = x == c && has_prefix s prefix

-- `strings.Contains(rule, "*")`
unfoldable pub has_star : List ℕ → Bool
has_star [] = false
has_star (c ∷ rule) = c == b'*' || has_star rule

-- The test holds of some suffix, no newline being passed over.
unfoldable pub some_suffix : (List ℕ → Bool) → List ℕ → Bool
some_suffix p [] = p []
some_suffix p (x ∷ s) = p (x ∷ s) || (not (x == 10) && some_suffix p s)

unfoldable pub wildcard : List ℕ → List ℕ → Bool
unfolding some_suffix
wildcard [] path = true
wildcard (c ∷ rule) path =
    let rest = wildcard rule in
    if c == b'*' then some_suffix rest path else elim path [ [] ↦ false | x ∷ s ↦ x == c && rest s ]

-- `strings.TrimSuffix(rule, "*")`
unfoldable pub trim_star : List ℕ → List ℕ
trim_star [] = []
trim_star (c ∷ []) = if c == b'*' then [] else c ∷ []
trim_star (c ∷ d ∷ rule) = c ∷ trim_star (d ∷ rule)

-- `compiles` says whether `regexp.Compile` accepts the quoted rule.
unfoldable pub match_path : (List ℕ → Bool) → List ℕ → List ℕ → Bool
match_path compiles [] path = false
match_path compiles (c ∷ rule) path =
    if not (has_star (c ∷ rule))
    then has_prefix path (c ∷ rule)
    else if compiles (c ∷ rule)
    then wildcard (c ∷ rule) path
    else has_prefix path (trim_star (c ∷ rule))

-- The rule covers a start of the path: each byte itself, a star any bytes of one line.
pub data Covers : List ℕ → List ℕ → Type 0 where
  done : {path : List ℕ} → Covers [] path
  same_byte :
      {c : ℕ} {rule path : List ℕ} → c ≢ b'*' → Covers rule path → Covers (c ∷ rule) (c ∷ path)
  star_ends : {rule path : List ℕ} → Covers rule path → Covers (b'*' ∷ rule) path
  star_takes :
      {x : ℕ} {rule path : List ℕ}
      → x ≢ 10
      → Covers (b'*' ∷ rule) path
      → Covers (b'*' ∷ rule) (x ∷ path)

suffix-Covers :
    (p : List ℕ → Bool) (rule path : List ℕ)
    → ((s : List ℕ) → p s ≡ true → Covers rule s)
    → some_suffix p path ≡ true
    → Covers (b'*' ∷ rule) path
unfolding some_suffix
suffix-Covers p rule [] h e = star_ends (h [] e)
suffix-Covers p rule (x ∷ s) h e = elim (Bool-cases (p (x ∷ s))) [
  | inl t ↦ star_ends (h (x ∷ s) t)
  | inr f ↦ star_takes (ground arith) (suffix-Covers p rule s h (ground arith))
]

byte-Covers :
    (c : ℕ) (rule path : List ℕ)
    → ((s : List ℕ) → wildcard rule s ≡ true → Covers rule s)
    → (c == b'*') ≡ false
    → wildcard (c ∷ rule) path ≡ true
    → Covers (c ∷ rule) path
unfolding wildcard
byte-Covers c rule [] h f e = absurd (ground arith)
byte-Covers c rule (x ∷ s) h f e =
    let k : x ≡ c = ground arith in
    let r : wildcard rule s ≡ true = ground arith in rw k (same_byte (ground arith) (h s r))

wildcard_sound : (rule path : List ℕ) → wildcard rule path ≡ true → Covers rule path
unfolding wildcard
wildcard_sound [] path e = done
wildcard_sound (c ∷ rule) path e = elim (Bool-cases (c == b'*')) [
  | inl t ↦
      let k : c ≡ b'*' = ground arith in
      let h : some_suffix (wildcard rule) path ≡ true = ground arith in
      rw k (suffix-Covers (wildcard rule) rule path (λ s. wildcard_sound rule s) h)
  | inr f ↦ byte-Covers c rule path (λ s. wildcard_sound rule s) f e
]

suffix_here : (p : List ℕ → Bool) (s : List ℕ) → p s ≡ true → some_suffix p s ≡ true
unfolding some_suffix
suffix_here p [] h = h
suffix_here p (x ∷ s) h = ground arith

wildcard_complete : {rule path : List ℕ} → Covers rule path → wildcard rule path ≡ true
unfolding wildcard some_suffix
wildcard_complete done = refl
wildcard_complete (same_byte n r) = ground (arith, wildcard_complete r)
wildcard_complete (star_ends {rule} {path} r) =
    suffix_here (wildcard rule) path (wildcard_complete r)
wildcard_complete (star_takes n r) = ground (arith, wildcard_complete r)

prefix-wildcard :
    (rule path : List ℕ) → has_star rule ≡ false → has_prefix path rule ≡ wildcard rule path
unfolding has_star has_prefix wildcard
prefix-wildcard [] path h = refl
prefix-wildcard (c ∷ rule) [] h = ground arith
prefix-wildcard (c ∷ rule) (x ∷ path) h = ground (arith, prefix-wildcard rule path)

-- Where every rule compiles, a rule matches a path exactly when it is not empty and covers a start
-- of the path, a star standing for any bytes of one line.
pub match_path-Covers :
    (rule path : List ℕ)
    → (match_path (λ r. true) rule path ≡ true) ↔ ((rule ≢ []) × Covers rule path)
unfolding match_path
match_path-Covers [] path = (λ h. cc, λ h. absurd (h.0 refl))
match_path-Covers (c ∷ rule) path = (
  λ h. (λ e. cc, wildcard_sound (c ∷ rule) path (ground (arith, prefix-wildcard (c ∷ rule) path))),
  λ h. let w = wildcard_complete h.1 in ground (arith, prefix-wildcard (c ∷ rule) path),
)
