-- ===== src/Storage/Path/Within.antt =====
-- `PathForURL` of internal/storage/path.go: where the local path of a URL lies.
use omegacrawl.Base.{
  ℕ, ◌≡◌, ◌≢◌, refl, sym, ap, ◌∙◌, inl, inr, Bool, true, false, List, [], ◌∷◌, ◌++◌, All, arith,
  ◌==◌, Bool-cases, Option, some,
}
use mathlib.Core.List.{append_assoc}
use omegacrawl.Errors.Classify.{codes}
use omegacrawl.Errors.Contains.{bytes_equal}
use omegacrawl.Localize.Canonical.{split, join}
use omegacrawl.Localize.Canonical.Split.{split-cons, split-append, split-last}
use omegacrawl.Robots.Match.{has_prefix}
use omegacrawl.Storage.Clean.{
  is_rooted, push_element, push_elements, elements, reversed_onto, print, clean, join_paths,
}
use omegacrawl.Storage.Clean.Stack.{push_elements-append, split_parts}
use omegacrawl.Storage.Clean.Idempotent.{clean_idempotent, elements-clean}
use omegacrawl.Storage.Path.Parts.{IsEntry, NoParent, push_elements-IsEntry, file_name-NoParent}
use omegacrawl.Storage.Path.{
  ParsedUrl, host_dir, file_name, clean_output, is_below, guarded, path_for_url,
}

-- The output directory is neither the current directory nor the root.
pub record IsNamed (output_dir : List ℕ) : Type 0 where
  pub not_current : clean output_dir ≢ 46 ∷ []
  pub not_root : clean output_dir ≢ 47 ∷ []

-- The path is clean and begins with the cleaned output directory and a slash, and its elements are those
-- of the output directory, the host, and entries below it, none of which is the parent directory.
abbrev pub LiesBelow : List ℕ → List ℕ → List ℕ → Type 0
LiesBelow output_dir host path =
    (clean path ≡ path)
    × ((rest : List ℕ) × (path ≡ clean output_dir ++ 47 ∷ rest))
    × ((below : List (List ℕ)) × All IsEntry below
        × (elements path ≡ below ++ host ∷ elements output_dir))

has_prefix_sound : (s p : List ℕ) → has_prefix s p ≡ true → (rest : List ℕ) × (s ≡ p ++ rest)
unfolding has_prefix
has_prefix_sound s [] h = (s, refl)
has_prefix_sound [] (c ∷ p) h = cc
has_prefix_sound (x ∷ s) (c ∷ p) h =
    let (rest, e) = has_prefix_sound s p (ground arith) in (rest, ground (arith, e))

split-append-sep : (s t : List ℕ) → split 47 (s ++ 47 ∷ t) ≡ split 47 s ++ split 47 t
unfolding split
split-append-sep [] t = split-append 47 [] t tt
split-append-sep (c ∷ s) t =
    let (p, ps, e) = split-cons 47 s in
    elim (Bool-cases (c == 47)) [
      | inl k ↦ rw (split, split-append-sep s t, e, k) refl
      | inr k ↦ rw (split, split-append-sep s t, e, k) refl
    ]

push-Entry :
    (r : Bool) (stack : List (List ℕ)) (e : List ℕ) → IsEntry e → push_element r stack e ≡ e ∷ stack
unfolding push_element
push-Entry r stack e k = rw (push_element, k.no_dot, k.no_parent) refl

push_elements-Entries :
    (r : Bool) (stack : List (List ℕ)) (host name : List ℕ)
    → IsEntry host
    → IsEntry name
    → push_elements r stack (host ∷ name ∷ []) ≡ name ∷ host ∷ stack
unfolding push_elements
push_elements-Entries r stack host name h n =
    ap (λ l. push_element r l name) (push-Entry r stack host h) ∙ push-Entry r (host ∷ stack) name n

-- Two entries after a path are its last two elements.
elements_below :
    (c : ℕ) (s host name : List ℕ)
    → IsEntry host
    → IsEntry name
    → elements ((c ∷ s) ++ 47 ∷ (host ++ 47 ∷ name)) ≡ name ∷ host ∷ elements (c ∷ s)
unfolding elements
elements_below c s host name h n =
    let r = is_rooted (c ∷ s) in
    let parts : split 47 ((c ∷ s) ++ 47 ∷ (host ++ 47 ∷ name))
        ≡ split 47 (c ∷ s) ++ host ∷ name ∷ [] =
      split-append-sep (c ∷ s) (host ++ 47 ∷ name)
      ∙ ap (λ l. split 47 (c ∷ s) ++ l)
          (split-append 47 host name h.no_slash
            ∙ ap (λ l. host ∷ l) (split-last 47 name n.no_slash)) in
    ap (push_elements r []) parts
    ∙ push_elements-append r [] (split 47 (c ∷ s)) (host ∷ name ∷ [])
    ∙ push_elements-Entries r (elements (c ∷ s)) host name h n

join-snoc :
    (e : List ℕ) (l : List (List ℕ)) (a : List ℕ)
    → join 47 ((e ∷ l) ++ a ∷ []) ≡ join 47 (e ∷ l) ++ 47 ∷ a
unfolding join
join-snoc e [] a = refl
join-snoc e (f ∷ l) a =
    ap (λ t. e ++ 47 ∷ t) (join-snoc f l a) ∙ sym (append_assoc e (47 ∷ join 47 (f ∷ l)) (47 ∷ a))

reversed_onto-append :
    (l after : List (List ℕ)) → reversed_onto l after ≡ reversed_onto l [] ++ after
reversed_onto-append [] after = refl
reversed_onto-append (e ∷ l) after =
    reversed_onto-append l (e ∷ after)
    ∙ sym (append_assoc (reversed_onto l []) (e ∷ []) after)
    ∙ ap (λ t. t ++ after) (sym (reversed_onto-append l (e ∷ [])))

reversed_onto-cons :
    (l : List (List ℕ)) (e : List ℕ) (after : List (List ℕ))
    → (f : List ℕ) × (fs : List (List ℕ)) × (reversed_onto l (e ∷ after) ≡ f ∷ fs)
reversed_onto-cons [] e after = (e, after, refl)
reversed_onto-cons (g ∷ l) e after = reversed_onto-cons l g (e ∷ after)

join-reversed_onto :
    (e : List ℕ) (stack : List (List ℕ)) (a : List ℕ)
    → join 47 (reversed_onto (a ∷ e ∷ stack) []) ≡ join 47 (reversed_onto (e ∷ stack) []) ++ 47 ∷ a
join-reversed_onto e stack a =
    let (f, fs, p) = reversed_onto-cons stack e [] in
    ap (join 47) (reversed_onto-append (e ∷ stack) (a ∷ []) ∙ ap (λ l. l ++ a ∷ []) p)
    ∙ join-snoc f fs a
    ∙ ap (λ l. join 47 l ++ 47 ∷ a) (sym p)

print-cons :
    (r : Bool) (e : List ℕ) (stack : List (List ℕ)) (a : List ℕ)
    → print r (a ∷ e ∷ stack) ≡ print r (e ∷ stack) ++ 47 ∷ a
unfolding print
print-cons true e stack a = ap (λ l. 47 ∷ l) (join-reversed_onto e stack a)
print-cons false e stack a = join-reversed_onto e stack a

-- Two entries after a path that is neither the current directory nor the root lie below it.
print-Entries :
    (r : Bool) (stack : List (List ℕ)) (host name : List ℕ)
    → print r stack ≢ 46 ∷ []
    → print r stack ≢ 47 ∷ []
    → print r (name ∷ host ∷ stack) ≡ print r stack ++ 47 ∷ (host ++ 47 ∷ name)
unfolding print join
print-Entries true [] host name d s = absurd (s refl)
print-Entries false [] host name d s = absurd (d refl)
print-Entries r (e ∷ stack) host name d s =
    print-cons r host (e ∷ stack) name
    ∙ ap (λ l. l ++ 47 ∷ name) (print-cons r e stack host)
    ∙ append_assoc (print r (e ∷ stack)) (47 ∷ host) (47 ∷ name)

clean-empty : clean [] ≡ 46 ∷ []
unfolding clean elements print split push_elements push_element
clean-empty = refl

-- The path of two entries in a directory that has a name lies below it.
pub join_paths-Entries :
    (output_dir host name : List ℕ)
    → IsNamed output_dir
    → IsEntry host
    → IsEntry name
    → join_paths (output_dir ∷ host ∷ name ∷ []) ≡ clean output_dir ++ 47 ∷ (host ++ 47 ∷ name)
unfolding join_paths clean join
join_paths-Entries [] host name k h n = absurd (k.not_current clean-empty)
join_paths-Entries (c ∷ s) host name k h n =
    ap (print (is_rooted (c ∷ s))) (elements_below c s host name h n)
    ∙ print-Entries (is_rooted (c ∷ s)) (elements (c ∷ s)) host name k.not_current k.not_root

blocked-IsEntry : IsEntry (codes "_blocked")
unfolding bytes_equal
blocked-IsEntry = record { no_slash = omega arith; no_dot = refl; no_parent = refl }

blocked-NoParent : NoParent (split 47 (codes "_blocked"))
unfolding bytes_equal split
blocked-NoParent = (refl, tt)

join_paths-clean :
    (e : List ℕ) (es : List (List ℕ))
    → clean e ≢ 46 ∷ []
    → clean (join_paths (e ∷ es)) ≡ join_paths (e ∷ es)
unfolding join_paths
join_paths-clean [] es k = absurd (k clean-empty)
join_paths-clean (c ∷ e) es k = clean_idempotent (join 47 ((c ∷ e) ∷ es))

-- The elements of the host and the file in the output directory.
elements-resolved :
    (output_dir host file : List ℕ)
    → output_dir ≢ []
    → IsEntry host
    → NoParent (split 47 file)
    → (below : List (List ℕ)) × All IsEntry below
      × (elements (join_paths (output_dir ∷ host ∷ file ∷ []))
          ≡ below ++ host ∷ elements output_dir)
unfolding join_paths join elements push_elements
elements-resolved [] host file k h n = absurd (k refl)
elements-resolved (c ∷ s) host file k h n =
    let r = is_rooted (c ∷ s) in
    let (es, a, p) =
      push_elements-IsEntry r (host ∷ elements (c ∷ s)) (split 47 file) (split_parts 47 file) n in
    let parts : split 47 ((c ∷ s) ++ 47 ∷ (host ++ 47 ∷ file))
        ≡ split 47 (c ∷ s) ++ host ∷ split 47 file =
      split-append-sep (c ∷ s) (host ++ 47 ∷ file)
      ∙ ap (λ l. split 47 (c ∷ s) ++ l) (split-append 47 host file h.no_slash) in
    (
      es,
      a,
      elements-clean ((c ∷ s) ++ 47 ∷ (host ++ 47 ∷ file))
          ∙ ap (push_elements r []) parts
          ∙ push_elements-append r [] (split 47 (c ∷ s)) (host ∷ split 47 file)
          ∙ ap (λ l. push_elements r l (split 47 file)) (push-Entry r (elements (c ∷ s)) host h)
          ∙ p,
    )

guarded-LiesBelow :
    (output_dir host file : List ℕ)
    → IsNamed output_dir
    → IsEntry host
    → NoParent (split 47 file)
    → LiesBelow output_dir host
        (guarded output_dir host (join_paths (output_dir ∷ host ∷ file ∷ [])))
unfolding guarded is_below clean_output
guarded-LiesBelow output_dir host file k h n =
    let resolved = join_paths (output_dir ∷ host ∷ file ∷ []) in
    let blocked = join_paths (output_dir ∷ host ∷ codes "_blocked" ∷ []) in
    let named : output_dir ≢ [] = λ e. k.not_current (ap clean e ∙ clean-empty) in
    let c = join_paths-clean output_dir (host ∷ file ∷ []) k.not_current in
    elim (Bool-cases (has_prefix (clean resolved) (clean output_dir ++ codes "/"))) [
      | inl t ↦
          let (rest, e) = has_prefix_sound (clean resolved) (clean output_dir ++ codes "/") t in
          let below : LiesBelow output_dir host resolved = (
            c,
            (rest, sym c ∙ e ∙ append_assoc (clean output_dir) (codes "/") rest),
            elements-resolved output_dir host file named h n,
          ) in
          rw t below
      | inr f ↦
          let below : LiesBelow output_dir host blocked = (
            join_paths-clean output_dir (host ∷ codes "_blocked" ∷ []) k.not_current,
            (
              host ++ 47 ∷ codes "_blocked",
              join_paths-Entries output_dir host (codes "_blocked") k h blocked-IsEntry,
            ),
            elements-resolved output_dir host (codes "_blocked") named h blocked-NoParent,
          ) in
          rw f below
    ]

-- In an output directory other than the current directory and the root, the path of a URL whose host
-- directory is a plain entry is clean, begins with the cleaned output directory, and names entries
-- below the host's directory, whatever the path and the query of the URL hold: none of its elements
-- leads back out, also where the output directory itself lies above the current one.
pub path_for_url-LiesBelow :
    (parse : List ℕ → Option ParsedUrl) (unescape : List ℕ → Option (List ℕ))
    → (output_dir raw_url : List ℕ) (u : ParsedUrl) → parse raw_url ≡ some u
    → IsNamed output_dir
    → IsEntry (host_dir u)
    → LiesBelow output_dir (host_dir u) (path_for_url parse unescape output_dir raw_url)
unfolding path_for_url
path_for_url-LiesBelow parse unescape output_dir raw_url u p k h =
    rw (path_for_url, p)
      (guarded-LiesBelow output_dir (host_dir u) (file_name unescape u) k h
        (file_name-NoParent unescape u))
