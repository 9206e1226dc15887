-- ===== src/Storage/Clean/Idempotent.antt =====
-- internal/storage/path.go: a path that `filepath.Clean` cleaned, cleaned once more.
use omegacrawl.Base.{ℕ, ◌≡◌, refl, ap, ◌∙◌, Bool, true, false, List, [], ◌∷◌, All, arith}
use omegacrawl.Errors.Contains.{bytes_equal}
use omegacrawl.Localize.Canonical.{split, join}
use omegacrawl.Localize.Canonical.Split.{Lacks, split-append, split-join}
use omegacrawl.Storage.Clean.{
  is_empty, is_rooted, push_element, push_elements, elements, reversed_onto, print, clean,
}
use omegacrawl.Storage.Clean.Stack.{IsNormal, elements-IsNormal, push_elements-reversed_onto}

-- A text that an element of a path can be: it holds a byte, and no slash.
abbrev pub IsName : List ℕ → Type 0
IsName e = Lacks 47 e × (is_empty e ≡ false)

pub reversed_onto-Names :
    (r : Bool) (stack after : List (List ℕ))
    → IsNormal r stack
    → All IsName after
    → All IsName (reversed_onto stack after)
reversed_onto-Names r [] after n h = h
reversed_onto-Names r (e ∷ stack) after ((l, t, p), n) h =
    reversed_onto-Names r stack (e ∷ after) n ((l, t), h)

Names-Lack : (l : List (List ℕ)) → All IsName l → All (Lacks 47) l
Names-Lack [] h = tt
Names-Lack (e ∷ l) (h, t) = (h.0, Names-Lack l t)

-- Joined names are no rooted path.
pub is_rooted-join : (l : List (List ℕ)) → All IsName l → is_rooted (join 47 l) ≡ false
unfolding join
is_rooted-join [] h = refl
is_rooted-join ([] ∷ l) ((p, t), h) = cc
is_rooted-join ((c ∷ e) ∷ []) (((n, p), t), h) = ground arith
is_rooted-join ((c ∷ e) ∷ f ∷ l) (((n, p), t), h) = ground arith

push_elements-split-join :
    (r : Bool) (l : List (List ℕ))
    → All IsName l
    → push_elements r [] (split 47 (join 47 l)) ≡ push_elements r [] l
unfolding split join push_elements push_element
push_elements-split-join r [] h = refl
push_elements-split-join r (p ∷ ps) h =
    ap (push_elements r []) (split-join 47 p ps (Names-Lack (p ∷ ps) h))

elements-join :
    (r : Bool) (stack : List (List ℕ))
    → IsNormal r stack
    → push_elements r [] (split 47 (join 47 (reversed_onto stack []))) ≡ stack
unfolding push_elements
elements-join r stack n =
    push_elements-split-join r (reversed_onto stack []) (reversed_onto-Names r stack [] n tt)
    ∙ push_elements-reversed_onto r stack [] n

elements-slash : (s : List ℕ) → elements (47 ∷ s) ≡ push_elements true [] (split 47 s)
unfolding elements push_elements push_element
elements-slash s = ap (push_elements true []) (split-append 47 [] s tt)

clean-dot : clean (46 ∷ []) ≡ 46 ∷ []
unfolding clean elements print split push_elements push_element bytes_equal
clean-dot = refl

-- The path printed of a normal stack is clean.
pub clean-print :
    (r : Bool) (stack : List (List ℕ)) → IsNormal r stack → clean (print r stack) ≡ print r stack
unfolding clean elements print
clean-print true stack n =
    ap (print true) (elements-slash (join 47 (reversed_onto stack [])) ∙ elements-join true stack n)
clean-print false [] n = clean-dot
clean-print false (e ∷ stack) n =
    let k =
      is_rooted-join (reversed_onto (e ∷ stack) [])
        (reversed_onto-Names false (e ∷ stack) [] n tt) in
    rw k (ap (print false) (elements-join false (e ∷ stack) n))

-- Cleaning a path twice is cleaning it once.
pub clean_idempotent : (s : List ℕ) → clean (clean s) ≡ clean s
unfolding clean
clean_idempotent s = clean-print (is_rooted s) (elements s) (elements-IsNormal s)

elements-print :
    (r : Bool) (stack : List (List ℕ)) → IsNormal r stack → elements (print r stack) ≡ stack
unfolding print elements push_elements push_element bytes_equal split
elements-print true stack n =
    elements-slash (join 47 (reversed_onto stack [])) ∙ elements-join true stack n
elements-print false [] n = refl
elements-print false (e ∷ stack) n =
    let k =
      is_rooted-join (reversed_onto (e ∷ stack) [])
        (reversed_onto-Names false (e ∷ stack) [] n tt) in
    rw k (elements-join false (e ∷ stack) n)

-- A cleaned path has the elements that the cleaning kept.
pub elements-clean : (s : List ℕ) → elements (clean s) ≡ elements s
unfolding clean
elements-clean s = elements-print (is_rooted s) (elements s) (elements-IsNormal s)
