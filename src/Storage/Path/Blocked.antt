-- ===== src/Storage/Path/Blocked.antt =====
-- `PathForURL` of internal/storage/path.go where the output directory is the current directory.
use omegacrawl.Base.{
  ℕ, ◌≡◌, ◌≢◌, refl, sym, ap, ◌∙◌, Bool, true, false, List, [], ◌∷◌, All, arith, Option, some,
  length,
}
use omegacrawl.Errors.Classify.{codes}
use omegacrawl.Errors.Contains.{bytes_equal}
use omegacrawl.Localize.Canonical.{join}
use omegacrawl.Robots.Match.{has_prefix}
use omegacrawl.Storage.Clean.{
  is_rooted, push_element, elements, reversed_onto, print, clean, join_paths,
}
use omegacrawl.Storage.Clean.Stack.{Sits, IsNormal, elements-IsNormal}
use omegacrawl.Storage.Clean.Idempotent.{IsName}
use omegacrawl.Storage.Path.{ParsedUrl, host_dir, clean_output, is_below, guarded, path_for_url}

-- The text is the name of an element, and not the current directory's.
abbrev IsProper : List ℕ → Type 0
IsProper e = IsName e × (e ≢ 46 ∷ [])

pushed_dot : (r : Bool) (stack : List (List ℕ)) → push_element r stack (46 ∷ []) ≡ stack
unfolding push_element bytes_equal
pushed_dot r stack = refl

Sits-IsProper : (r : Bool) (stack : List (List ℕ)) (e : List ℕ) → Sits r stack e → IsProper e
Sits-IsProper r stack e (l, t, p) = (
  (l, t),
  λ q.
      let same : stack ≡ e ∷ stack =
        sym (pushed_dot r stack) ∙ ap (push_element r stack) (sym q) ∙ p in
      absurd (omega (arith, ap length same)),
)

reversed_onto-Proper :
    (r : Bool) (stack after : List (List ℕ))
    → IsNormal r stack
    → All IsProper after
    → All IsProper (reversed_onto stack after)
reversed_onto-Proper r [] after n h = h
reversed_onto-Proper r (e ∷ stack) after (sits, n) h =
    reversed_onto-Proper r stack (e ∷ after) n (Sits-IsProper r stack e sits, h)

-- A path of proper names does not begin with the current directory.
join-Proper : (l : List (List ℕ)) → All IsProper l → has_prefix (join 47 l) (codes "./") ≡ false
unfolding join has_prefix
join-Proper [] h = refl
join-Proper ([] ∷ l) (((p, t), q), h) = cc
join-Proper ((c ∷ []) ∷ []) ((((n, p), t), q), h) = ground arith
join-Proper ((c ∷ []) ∷ f ∷ l) ((((n, p), t), q), h) =
    let k : c ≢ 46 = (λ e. q (ap (λ d. d ∷ []) e)) in ground arith
join-Proper ((c ∷ d ∷ e) ∷ []) ((((n, (m, p)), t), q), h) = ground arith
join-Proper ((c ∷ d ∷ e) ∷ f ∷ l) ((((n, (m, p)), t), q), h) = ground arith

print-Proper :
    (r : Bool) (stack : List (List ℕ))
    → IsNormal r stack
    → has_prefix (print r stack) (codes "./") ≡ false
unfolding print has_prefix
print-Proper true stack n = refl
print-Proper false [] n = refl
print-Proper false (e ∷ stack) n =
    join-Proper (reversed_onto (e ∷ stack) []) (reversed_onto-Proper false (e ∷ stack) [] n tt)

clean-Proper : (s : List ℕ) → has_prefix (clean s) (codes "./") ≡ false
unfolding clean
clean-Proper s = print-Proper (is_rooted s) (elements s) (elements-IsNormal s)

-- With the current directory for its output directory, the guard refuses every path: each URL that
-- parses is mapped to the one path `_blocked` of its host's directory.
pub path_for_url_blocked :
    (parse : List ℕ → Option ParsedUrl) (unescape : List ℕ → Option (List ℕ))
    → (output_dir raw_url : List ℕ) (u : ParsedUrl) → clean output_dir ≡ codes "."
    → parse raw_url ≡ some u
    → path_for_url parse unescape output_dir raw_url
      ≡ join_paths (output_dir ∷ host_dir u ∷ codes "_blocked" ∷ [])
unfolding path_for_url guarded is_below clean_output
path_for_url_blocked parse unescape output_dir raw_url u c p =
    rw (path_for_url, p, guarded, is_below, clean_output, c) (rw (clean-Proper _) refl)
