-- ===== src/Storage/Path/Parts.antt =====
-- `PathForURL` of internal/storage/path.go: the parts of the file's name.
use mathlib.Core.Path.{subst}
use mathlib.Core.List.{append_assoc}
use omegacrawl.Base.{
  ℕ, ◌≡◌, ◌≢◌, refl, sym, ap, ◌∙◌, inl, inr, Bool, false, ◌||◌, List, [], ◌∷◌, ◌++◌, All, arith,
  ◌==◌, Bool-cases, Option, if◌then◌else◌,
}
use omegacrawl.Errors.Classify.{codes}
use omegacrawl.Errors.Contains.{bytes_equal, bytes_equal_iff, contains, contains_iff, Occurs}
use omegacrawl.Localize.Canonical.{split}
use omegacrawl.Localize.Canonical.Split.{Lacks, split-cons, split-last}
use omegacrawl.Storage.Clean.{
  dot_dot, is_empty, push_element, push_elements, has_byte, base_name, from_last_dot, ext,
  replace_byte, trim_suffix,
}
use omegacrawl.Storage.Path.{ParsedUrl, with_index, safe_query, file_name}

-- The text names an entry of a directory other than the directory and its parent.
pub record IsEntry (e : List ℕ) : Type 0 where
  pub no_slash : Lacks 47 e
  pub no_dot : (is_empty e || bytes_equal e (46 ∷ [])) ≡ false
  pub no_parent : bytes_equal e dot_dot ≡ false

-- No part names the parent directory.
abbrev pub NoParent : List (List ℕ) → Type 0
NoParent parts = All (λ e. bytes_equal e dot_dot ≡ false) parts

-- The text has no two dots in a row.
abbrev NoDots : List ℕ → Type 0
NoDots s = Occurs s dot_dot → ⊥

NoDots-tail : (c : ℕ) (s : List ℕ) → NoDots (c ∷ s) → NoDots s
NoDots-tail c s h (a, b, e) = h (c ∷ a, b, ap (λ l. c ∷ l) e)

NoDots-prefix : (s t : List ℕ) → NoDots (s ++ t) → NoDots s
NoDots-prefix s t h (a, b, e) = h (
  a,
  b ++ t,
  ap (λ l. l ++ t) e
      ∙ append_assoc a (dot_dot ++ b) t
      ∙ ap (λ l. a ++ l) (append_assoc dot_dot b t),
)

-- The first part of a text is a prefix of it.
split-prefix :
    (s p : List ℕ) (ps : List (List ℕ)) → split 47 s ≡ p ∷ ps → (t : List ℕ) × (s ≡ p ++ t)
unfolding split
split-prefix [] p ps e = ([], ground (arith, e))
split-prefix (c ∷ s) p ps e =
    let (q, qs, f) = split-cons 47 s in
    elim (Bool-cases (c == 47)) [
      | inl k ↦ let z = rw (split, f, k) at e in (c ∷ s, ground (arith, z))
      | inr k ↦
          let z = rw (split, f, k) at e in
          let (t, g) = split-prefix s q qs f in (t, ground (arith, z, g))
    ]

-- A part in front that is the parent directory has two dots in a row there.
first_part :
    (c : ℕ) (s p : List ℕ) (ps : List (List ℕ))
    → split 47 s ≡ p ∷ ps
    → ((rest : List ℕ) → c ∷ s ≡ dot_dot ++ rest → ⊥)
    → bytes_equal (c ∷ p) dot_dot ≡ false
first_part c s p ps e n = elim (Bool-cases (bytes_equal (c ∷ p) dot_dot)) [
  | inr f ↦ f
  | inl h ↦
      let (t, g) = split-prefix s p ps e in
      absurd (n t (ap (λ l. c ∷ l) g ∙ ap (λ l. l ++ t) ((bytes_equal_iff (c ∷ p) dot_dot).0 h)))
]

split-NoParent : (s : List ℕ) → NoDots s → NoParent (split 47 s)
unfolding split bytes_equal
split-NoParent [] n = (refl, tt)
split-NoParent (c ∷ s) n =
    let (p, ps, e) = split-cons 47 s in
    let rest : NoParent (p ∷ ps) = subst NoParent e (split-NoParent s (NoDots-tail c s n)) in
    elim (Bool-cases (c == 47)) [
      | inl k ↦ rw (split, e, k) (refl, rest)
      | inr k ↦ rw (split, e, k) (first_part c s p ps e (λ b g. n ([], b, g)), rest.1)
    ]

split-append-NoParent : (s y : List ℕ) → NoDots s → Lacks 47 y → NoParent (split 47 (s ++ 95 ∷ y))
unfolding split bytes_equal
split-append-NoParent [] y n l =
    let under : Lacks 47 (95 ∷ y) = (omega arith, l) in rw (split-last 47 (95 ∷ y) under) (refl, tt)
split-append-NoParent (c ∷ s) y n l =
    let (p, ps, e) = split-cons 47 (s ++ 95 ∷ y) in
    let rest : NoParent (p ∷ ps) =
      subst NoParent e (split-append-NoParent s y (NoDots-tail c s n) l) in
    elim (Bool-cases (c == 47)) [
      | inl k ↦ rw (split, e, k) (refl, rest)
      | inr k ↦ rw (split, e, k) (first_part c (s ++ 95 ∷ y) p ps e (no_dots c s y n), rest.1)
    ]
  where
    no_dots :
        (c : ℕ) (s y : List ℕ)
        → NoDots (c ∷ s)
        → (rest : List ℕ) → c ∷ s ++ 95 ∷ y ≡ dot_dot ++ rest
        → ⊥
    no_dots c [] y n rest e = ground (arith, e)
    no_dots c (d ∷ s) y n rest e = n ([], s, ground (arith, e))

trim_suffix-prefix : (s suffix : List ℕ) → (t : List ℕ) × (s ≡ trim_suffix s suffix ++ t)
unfolding trim_suffix
trim_suffix-prefix [] suffix = ([], refl)
trim_suffix-prefix (c ∷ s) suffix =
    let (t, e) = trim_suffix-prefix s suffix in
    elim (Bool-cases (bytes_equal (c ∷ s) suffix)) [
      | inl k ↦ (c ∷ s, rw (trim_suffix, k) refl)
      | inr k ↦ (t, rw (trim_suffix, k) (ap (λ l. c ∷ l) e))
    ]

has_byte-Lacks : (b : ℕ) (s : List ℕ) → has_byte b s ≡ false → Lacks b s
unfolding has_byte
has_byte-Lacks b [] h = tt
has_byte-Lacks b (c ∷ s) h = (ground arith, has_byte-Lacks b s (ground arith))

base_name-Lacks : (s : List ℕ) → Lacks 47 (base_name s)
unfolding base_name
base_name-Lacks [] = tt
base_name-Lacks (c ∷ s) = elim (Bool-cases (has_byte 47 s)) [
  | inl k ↦ rw (base_name, k) (base_name-Lacks s)
  | inr k ↦
      let l = has_byte-Lacks 47 s k in
      elim (Bool-cases (c == 47)) [
        | inl e ↦ rw (base_name, k, e) l
        | inr e ↦ let n : c ≢ 47 = ground arith in rw (base_name, k, e) (n, l)
      ]
]

from_last_dot-Lacks : (s : List ℕ) → Lacks 47 s → Lacks 47 (from_last_dot s)
unfolding from_last_dot
from_last_dot-Lacks [] h = tt
from_last_dot-Lacks (c ∷ s) (n, h) = elim (Bool-cases (has_byte 46 s)) [
  | inl k ↦ rw (from_last_dot, k) (from_last_dot-Lacks s h)
  | inr k ↦ elim (Bool-cases (c == 46)) [
    | inl e ↦ rw (from_last_dot, k, e) (n, h)
    | inr e ↦ rw (from_last_dot, k, e) tt
  ]
]

ext-Lacks : (s : List ℕ) → Lacks 47 (ext s)
unfolding ext
ext-Lacks s = from_last_dot-Lacks (base_name s) (base_name-Lacks s)

replace_slash-Lacks : (s : List ℕ) → Lacks 47 (replace_byte 47 95 s)
unfolding replace_byte
replace_slash-Lacks [] = tt
replace_slash-Lacks (c ∷ s) = (ground arith, replace_slash-Lacks s)

replace_byte-Lacks : (old : ℕ) (s : List ℕ) → Lacks 47 s → Lacks 47 (replace_byte old 95 s)
unfolding replace_byte
replace_byte-Lacks old [] h = tt
replace_byte-Lacks old (c ∷ s) (n, h) = (ground arith, replace_byte-Lacks old s h)

safe_query-Lacks : (q : List ℕ) → Lacks 47 (safe_query q)
unfolding safe_query
safe_query-Lacks q = replace_byte-Lacks 38 _ (
    replace_byte-Lacks 63 _
      (replace_byte-Lacks 58 _ (replace_byte-Lacks 92 _ (replace_slash-Lacks q))))

append-Lacks : (s t : List ℕ) → Lacks 47 s → Lacks 47 t → Lacks 47 (s ++ t)
append-Lacks [] t h k = k
append-Lacks (c ∷ s) t (n, h) k = (n, append-Lacks s t h k)

-- The name with the check for two dots.
unfoldable checked : List ℕ → List ℕ
checked named = if contains named dot_dot then codes "_safe_path" else named

checked-NoDots : (named : List ℕ) → NoDots (checked named)
unfolding checked contains bytes_equal
checked-NoDots named = elim (Bool-cases (contains named dot_dot)) [
  | inl t ↦
      rw (checked, t)
        (λ o. absurd (ground (arith, (contains_iff (codes "_safe_path") dot_dot).1 o)))
  | inr f ↦ rw (checked, f) (λ o. ground (arith, (contains_iff named dot_dot).1 o))
]

-- No part of the file's name is the parent directory.
pub file_name-NoParent :
    (unescape : List ℕ → Option (List ℕ)) (u : ParsedUrl)
    → NoParent (split 47 (file_name unescape u))
unfolding file_name checked
file_name-NoParent unescape u =
    let decoded = checked (with_index unescape u.path) in
    let calm = checked-NoDots (with_index unescape u.path) in
    elim (Bool-cases (is_empty u.raw_query)) [
      | inl e ↦ rw (file_name, e) (split-NoParent decoded calm)
      | inr e ↦
          let base = trim_suffix decoded (ext decoded) in
          let tail = safe_query u.raw_query ++ ext decoded in
          let (t, p) = trim_suffix-prefix decoded (ext decoded) in
          let all : NoParent (split 47 (base ++ 95 ∷ tail)) =
            split-append-NoParent base tail (NoDots-prefix base t (subst NoDots p calm)) (
              append-Lacks (safe_query u.raw_query) (ext decoded) (safe_query-Lacks u.raw_query)
                (ext-Lacks decoded)) in
          let q = safe_query u.raw_query in
          let same =
            append_assoc (base ++ codes "_") q (ext decoded)
            ∙ append_assoc base (codes "_") (q ++ ext decoded) in
          rw (file_name, e) (subst (λ s. NoParent (split 47 s)) (sym same) all)
    ]

-- Parts, none of which is the parent directory, are pushed as entries, the empty ones and the
-- current directory left out.
pub push_elements-IsEntry :
    (r : Bool) (stack parts : List (List ℕ))
    → All (Lacks 47) parts
    → NoParent parts
    → (es : List (List ℕ)) × All IsEntry es × (push_elements r stack parts ≡ es ++ stack)
unfolding push_elements push_element
push_elements-IsEntry r stack [] l n = ([], tt, refl)
push_elements-IsEntry r stack (e ∷ parts) (h, l) (k, n) =
    elim (Bool-cases (is_empty e || bytes_equal e (46 ∷ []))) [
      | inl t ↦
          let (es, a, p) = push_elements-IsEntry r stack parts l n in
          (es, a, rw (push_elements, push_element, t) p)
      | inr t ↦
          let (es, a, p) = push_elements-IsEntry r (e ∷ stack) parts l n in
          let entry : IsEntry e = record { no_slash = h; no_dot = t; no_parent = k } in
          (
            es ++ e ∷ [],
            append-IsEntry es e a entry,
            rw (push_elements, push_element, t, k) (p ∙ sym (append_assoc es (e ∷ []) stack)),
          )
    ]
  where
    append-IsEntry :
        (es : List (List ℕ)) (e : List ℕ) → All IsEntry es → IsEntry e → All IsEntry (es ++ e ∷ [])
    append-IsEntry [] e a k = (k, tt)
    append-IsEntry (f ∷ es) e (h, a) k = (h, append-IsEntry es e a k)
