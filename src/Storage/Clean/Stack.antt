-- ===== src/Storage/Clean/Stack.antt =====
-- internal/storage/path.go: the elements of a path that `filepath.Clean` keeps.
use mathlib.Core.Path.{subst}
use omegacrawl.Base.{
  ℕ, ◌≡◌, ◌≢◌, refl, sym, ◌∙◌, inl, inr, Bool, true, false, ◌||◌, List, [], ◌∷◌, ◌++◌, All, arith,
  ◌==◌, Bool-cases,
}
use omegacrawl.Errors.Contains.{bytes_equal, bytes_equal_iff}
use omegacrawl.Localize.Canonical.{split}
use omegacrawl.Localize.Canonical.Split.{Lacks, split-cons}
use omegacrawl.Storage.Clean.{
  dot_dot, is_empty, is_rooted, push_element, push_elements, elements, reversed_onto,
}

-- The element stands on the stack below it because it was pushed there.
abbrev pub Sits : Bool → List (List ℕ) → List ℕ → Type 0
Sits rooted stack e = Lacks 47 e × (is_empty e ≡ false) × (push_element rooted stack e ≡ e ∷ stack)

abbrev pub IsNormal : Bool → List (List ℕ) → Type 0
IsNormal rooted [] = Unit
IsNormal rooted (e ∷ stack) = Sits rooted stack e × IsNormal rooted stack

pub push_elements-append :
    (r : Bool) (stack es fs : List (List ℕ))
    → push_elements r stack (es ++ fs) ≡ push_elements r (push_elements r stack es) fs
unfolding push_elements
push_elements-append r stack [] fs = refl
push_elements-append r stack (e ∷ es) fs = push_elements-append r (push_element r stack e) es fs

pub split_parts : (sep : ℕ) (s : List ℕ) → All (Lacks sep) (split sep s)
unfolding split
split_parts sep [] = (tt, tt)
split_parts sep (c ∷ s) =
    let (p, ps, e) = split-cons sep s in
    let ih : All (Lacks sep) (p ∷ ps) = subst (λ l. All (Lacks sep) l) e (split_parts sep s) in
    elim (Bool-cases (c == sep)) [
      | inl t ↦ rw (split, e, t) (tt, ih)
      | inr f ↦ let n : c ≢ sep = ground arith in rw (split, e, f) ((n, ih.0), ih.1)
    ]

push_dots-IsNormal :
    (r : Bool) (stack : List (List ℕ))
    → IsNormal r stack
    → IsNormal r (push_element r stack dot_dot)
unfolding push_element bytes_equal
push_dots-IsNormal true [] n = tt
push_dots-IsNormal false [] n = ((omega arith, refl, refl), tt)
push_dots-IsNormal r (top ∷ rest) (sits, n) = elim (Bool-cases (bytes_equal top dot_dot)) [
  | inl t ↦ rw (push_element, t) ((omega arith, refl, rw (push_element, t) refl), (sits, n))
  | inr f ↦ rw (push_element, f) n
]

push_name :
    (r : Bool) (stack : List (List ℕ)) (e : List ℕ)
    → (is_empty e || bytes_equal e (46 ∷ [])) ≡ false
    → bytes_equal e dot_dot ≡ false
    → push_element r stack e ≡ e ∷ stack
unfolding push_element
push_name r stack e f g = rw (push_element, f, g) refl

push_element-IsNormal :
    (r : Bool) (stack : List (List ℕ)) (e : List ℕ)
    → Lacks 47 e
    → IsNormal r stack
    → IsNormal r (push_element r stack e)
unfolding push_element
push_element-IsNormal r stack e l n = elim (Bool-cases (is_empty e || bytes_equal e (46 ∷ []))) [
  | inl t ↦ rw (push_element, t) n
  | inr f ↦ elim (Bool-cases (bytes_equal e dot_dot)) [
    | inl t ↦
        subst (λ d. IsNormal r (push_element r stack d)) (sym ((bytes_equal_iff e dot_dot).0 t))
          (push_dots-IsNormal r stack n)
    | inr g ↦
        let p = push_name r stack e f g in
        let nonempty : is_empty e ≡ false = ground arith in rw p ((l, nonempty, p), n)
  ]
]

push_elements-IsNormal :
    (r : Bool) (stack es : List (List ℕ))
    → All (Lacks 47) es
    → IsNormal r stack
    → IsNormal r (push_elements r stack es)
unfolding push_elements
push_elements-IsNormal r stack [] h n = n
push_elements-IsNormal r stack (e ∷ es) (l, h) n =
    push_elements-IsNormal r (push_element r stack e) es h (push_element-IsNormal r stack e l n)

pub elements-IsNormal : (s : List ℕ) → IsNormal (is_rooted s) (elements s)
unfolding elements
elements-IsNormal s = push_elements-IsNormal (is_rooted s) [] (split 47 s) (split_parts 47 s) tt

-- Pushing the elements of a normal stack again builds it again.
pub push_elements-reversed_onto :
    (r : Bool) (stack after : List (List ℕ))
    → IsNormal r stack
    → push_elements r [] (reversed_onto stack after) ≡ push_elements r stack after
unfolding push_elements
push_elements-reversed_onto r [] after n = refl
push_elements-reversed_onto r (e ∷ stack) after ((l, t, p), n) =
    push_elements-reversed_onto r stack (e ∷ after) n ∙ rw (push_elements, p) refl
