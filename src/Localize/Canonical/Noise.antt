-- ===== src/Localize/Canonical/Noise.antt =====
-- internal/localize/canonical.go: what the canonical key of a page leaves out.
use omegacrawl.Base.{
  ℕ, ◌≡◌, refl, sym, ap, ◌∙◌, true, false, List, [], ◌∷◌, ◌++◌, All, arith, inl, inr, Bool-cases,
}
use omegacrawl.Errors.Contains.{bytes_equal}
use omegacrawl.Robots.Match.{has_prefix}
use omegacrawl.Robots.Parse.{trim_space, to_lower}
use omegacrawl.Localize.Canonical.{
  Canonicalizer, split, join, is_int, is_marker, is_drop_segment, path_drop_segment_suffix,
  kept_segments, is_empty, keeps_part, kept_parts, strip_drop_query,
}
use omegacrawl.Localize.Canonical.Split.{Lacks, split-join}

module _ (unescape : List ℕ → List ℕ) (c : Canonicalizer) where
  strip_of_split :
      (raw : List ℕ)
      → strip_drop_query unescape c raw ≡ join 38 (kept_parts unescape c (split 38 raw))
  unfolding strip_drop_query kept_parts split join
  strip_of_split [] = elim (Bool-cases (keeps_part unescape c [])) [
    | inl e ↦ rw (kept_parts, e) refl
    | inr e ↦ rw (kept_parts, e) refl
  ]
  strip_of_split (b ∷ raw) = refl

  -- The query of some parts keeps those that are not noise, in their order.
  strip_drop_query-join :
      (ps : List (List ℕ))
      → All (Lacks 38) ps
      → strip_drop_query unescape c (join 38 ps) ≡ join 38 (kept_parts unescape c ps)
  unfolding strip_drop_query kept_parts join
  strip_drop_query-join [] h = refl
  strip_drop_query-join (p ∷ ps) h =
      strip_of_split (join 38 (p ∷ ps))
      ∙ ap (λ l. join 38 (kept_parts unescape c l)) (split-join 38 p ps h)

  kept_parts-drop :
      (xs : List (List ℕ)) (p : List ℕ) (ys : List (List ℕ))
      → keeps_part unescape c p ≡ false
      → kept_parts unescape c (xs ++ p ∷ ys) ≡ kept_parts unescape c (xs ++ ys)
  unfolding kept_parts
  kept_parts-drop [] p ys h = rw (kept_parts, h) refl
  kept_parts-drop (x ∷ xs) p ys h = rw (kept_parts, kept_parts-drop xs p ys h) refl

  All-insert :
      (xs : List (List ℕ)) (p : List ℕ) (ys : List (List ℕ))
      → All (Lacks 38) (xs ++ ys)
      → Lacks 38 p
      → All (Lacks 38) (xs ++ p ∷ ys)
  All-insert [] p ys h l = (l, h)
  All-insert (x ∷ xs) p ys (a, h) l = (a, All-insert xs p ys h l)

  -- A noise parameter at any place of a query does not change the query that the canonical key has.
  pub strip_drop_query-noise :
      (xs : List (List ℕ)) (p : List ℕ) (ys : List (List ℕ))
      → All (Lacks 38) (xs ++ ys)
      → Lacks 38 p
      → keeps_part unescape c p ≡ false
      → strip_drop_query unescape c (join 38 (xs ++ p ∷ ys))
        ≡ strip_drop_query unescape c (join 38 (xs ++ ys))
  strip_drop_query-noise xs p ys h l d =
      strip_drop_query-join (xs ++ p ∷ ys) (All-insert xs p ys h l)
      ∙ ap (join 38) (kept_parts-drop xs p ys d)
      ∙ sym (strip_drop_query-join (xs ++ ys) h)

marker-not_empty : (l : List ℕ) → is_marker l path_drop_segment_suffix ≡ true → is_empty l ≡ false
unfolding is_marker path_drop_segment_suffix bytes_equal has_prefix
marker-not_empty [] h = ground (arith, h)
marker-not_empty (x ∷ l) h = refl

int-not_empty : (l : List ℕ) → is_int l ≡ true → is_empty l ≡ false
unfolding is_int
int-not_empty [] h = ground (arith, h)
int-not_empty (x ∷ l) h = refl

module _ (c : Canonicalizer) (none_preserved : c.preserve_path_segments ≡ []) where
  marker_dropped :
      (s prev : List ℕ)
      → is_marker (to_lower (trim_space s)) path_drop_segment_suffix ≡ true
      → is_drop_segment c s prev ≡ true
  unfolding is_drop_segment
  marker_dropped s prev h =
      rw (is_drop_segment, marker-not_empty (to_lower (trim_space s)) h, none_preserved, h)
        (ground arith)

  number_dropped :
      (s prev : List ℕ)
      → is_int (to_lower (trim_space s)) ≡ true
      → is_marker (to_lower (trim_space prev)) path_drop_segment_suffix ≡ true
      → is_drop_segment c s prev ≡ true
  unfolding is_drop_segment
  number_dropped s prev n h =
      rw (is_drop_segment, int-not_empty (to_lower (trim_space s)) n, none_preserved, n, h)
        (ground arith)

  -- Where no path segment is preserved, a pagination marker and a number at the end of a path do not
  -- change the path that the canonical key has.
  pub kept_segments-page :
      (prev : List ℕ) (segs : List (List ℕ)) (marker number : List ℕ)
      → is_marker (to_lower (trim_space marker)) path_drop_segment_suffix ≡ true
      → is_int (to_lower (trim_space number)) ≡ true
      → kept_segments c prev (segs ++ marker ∷ number ∷ []) ≡ kept_segments c prev segs
  unfolding kept_segments
  kept_segments-page prev [] marker number m n =
      rw (kept_segments, marker_dropped marker prev m, number_dropped number marker n m) refl
  kept_segments-page prev (s ∷ segs) marker number m n =
      rw (kept_segments, kept_segments-page s segs marker number m n) refl
