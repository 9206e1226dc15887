-- ===== src/Localize/Dedup/Collapsed.antt =====
-- internal/localize/dedup.go: the pages that a group has as collapsed.
use mathlib.Core.Path.{subst}
use text.Mathlib.Text.{◌==◌}
use text.Mathlib.TextEquality.{eq_iff}
use omegacrawl.Base.{
  ◌≡◌, refl, sym, ap, ◌∙◌, Bool, true, false, not, ◌&&◌, List, [], ◌∷◌, ◌++◌, map, Option, none,
  some, String, arith, inl, inr, Bool-cases, Option-cases, if◌then◌else◌, ℕ,
}
use mathlib.Core.List.{append_assoc, append-nil}
use omegacrawl.Base.Dict
use omegacrawl.Localize.Dedup.{Pages, Group, DedupReport, add_page, group_pages, join_group}

-- The collapsed pages of a group, if there is one.
unfoldable pub collapsed_of : Option Group → Option (List (List ℕ))
collapsed_of none = none
collapsed_of (some g) = some g.collapsed

module _ (pages : Pages) where
  -- The page counts, and shows the document `k`.
  unfoldable pub shows : String → String → Bool
  shows k p =
      pages.is_html_page_path p
      && (not (pages.is_noise_path (pages.url_from_local_path p))
          && pages.canonical_key (pages.url_from_local_path p) == k)

  -- The files that show the document, in the order in which they are met.
  unfoldable pub showing : String → List String → List String
  unfolding shows
  showing k [] = []
  showing k (p ∷ files) = let rest = showing k files in if shows k p then p ∷ rest else rest

  -- The collapsed pages of a group once it met further pages: all of them, but for the first of a new group.
  unfoldable pub after_pages : Option (List (List ℕ)) → List String → Option (List (List ℕ))
  after_pages none [] = none
  after_pages none (p ∷ l) = some (map pages.rel_within l)
  after_pages (some c) l = some (c ++ map pages.rel_within l)

  after_pages-cons :
      (o : Option (List (List ℕ))) (p : String) (l : List String)
      → after_pages (after_pages o (p ∷ [])) l ≡ after_pages o (p ∷ l)
  unfolding after_pages
  after_pages-cons none p l = refl
  after_pages-cons (some c) p l =
      ap some (append_assoc c (pages.rel_within p ∷ []) (map pages.rel_within l))

  after_pages-none : (o : Option (List (List ℕ))) → after_pages o [] ≡ o
  unfolding after_pages
  after_pages-none none = refl
  after_pages-none (some c) = ap some (append-nil c)

  join_group-collapsed :
      (w : ℕ) (p : String) (g : Group)
      → (join_group pages w p g).collapsed ≡ g.collapsed ++ pages.rel_within p ∷ []
  unfolding join_group
  join_group-collapsed w p g = ground arith

  insert-collapsed :
      (k key p : String) (new : Group) (o : Option Group) (groups : List (String × Group))
      → Dict.lookup key groups ≡ o
      → some new.collapsed ≡ after_pages (collapsed_of o) (p ∷ [])
      → collapsed_of (Dict.lookup k (Dict.insert key new groups)) ≡ (
          if key == k
          then after_pages (collapsed_of (Dict.lookup k groups)) (p ∷ [])
          else collapsed_of (Dict.lookup k groups))
  unfolding collapsed_of
  insert-collapsed k key p new o groups e h =
      rw (Dict.lookup-insert key k new groups) (elim (Bool-cases (key == k)) [
        | inl t ↦
            let same : key ≡ k = ground (arith, eq_iff key k) in
            let at : Dict.lookup k groups ≡ o = subst (λ x. Dict.lookup x groups ≡ o) same e in
            rw (t, at) h
        | inr t ↦ rw t refl
      ])

  add_page-collapsed :
      (k p : String) (rep : DedupReport)
      → pages.is_html_page_path p ≡ true
      → collapsed_of (Dict.lookup k (add_page pages p rep).groups) ≡ (
          if shows k p
          then after_pages (collapsed_of (Dict.lookup k rep.groups)) (p ∷ [])
          else collapsed_of (Dict.lookup k rep.groups))
  unfolding add_page shows collapsed_of after_pages
  add_page-collapsed k p rep html =
      let u = pages.url_from_local_path p in
      let key = pages.canonical_key u in
      let w = pages.clean_weight u in
      elim (Bool-cases (pages.is_noise_path u)) [
        | inl n ↦ rw (add_page, shows, n, html) refl
        | inr n ↦ elim (Option-cases (Dict.lookup key rep.groups)) [
          | inl e ↦
              rw (add_page, shows, n, html, e)
                (insert-collapsed k key p (record { rep_file = p; rep_weight = w; collapsed = [] })
                  none rep.groups e refl)
          | inr (g, e) ↦
              rw (add_page, shows, n, html, e)
                (insert-collapsed k key p (join_group pages w p g) (some g) rep.groups e
                  (ap some (join_group-collapsed w p g)))
        ]
      ]

  shows-html : (k p : String) → pages.is_html_page_path p ≡ false → shows k p ≡ false
  unfolding shows
  shows-html k p h = rw h refl

  showing-in :
      (k p : String) (files : List String)
      → shows k p ≡ true
      → showing k (p ∷ files) ≡ p ∷ showing k files
  unfolding showing
  showing-in k p files h = rw (showing, h) refl

  showing-out :
      (k p : String) (files : List String)
      → shows k p ≡ false
      → showing k (p ∷ files) ≡ showing k files
  unfolding showing
  showing-out k p files h = rw (showing, h) refl

  group_page_html :
      (p : String) (files : List String) (rep : DedupReport)
      → pages.is_html_page_path p ≡ true
      → group_pages pages (p ∷ files) rep ≡ group_pages pages files (add_page pages p rep)
  unfolding group_pages
  group_page_html p files rep e = rw (group_pages, e) refl

  group_page_other :
      (p : String) (files : List String) (rep : DedupReport)
      → pages.is_html_page_path p ≡ false
      → group_pages pages (p ∷ files) rep ≡ group_pages pages files rep
  unfolding group_pages
  group_page_other p files rep e = rw (group_pages, e) refl

  -- A group has as collapsed all pages that show its document, but for the one met first.
  pub group_pages-collapsed :
      (k : String) (files : List String) (rep : DedupReport)
      → collapsed_of (Dict.lookup k (group_pages pages files rep).groups)
        ≡ after_pages (collapsed_of (Dict.lookup k rep.groups)) (showing k files)
  unfolding group_pages showing
  group_pages-collapsed k [] rep = sym (after_pages-none (collapsed_of (Dict.lookup k rep.groups)))
  group_pages-collapsed k (p ∷ files) rep =
      let old = collapsed_of (Dict.lookup k rep.groups) in
      let at : DedupReport → Option (List (List ℕ)) = λ r. collapsed_of (Dict.lookup k r.groups) in
      elim (Bool-cases (pages.is_html_page_path p)) [
        | inr h ↦
            ap at (group_page_other p files rep h)
            ∙ group_pages-collapsed k files rep
            ∙ ap (after_pages old) (sym (showing-out k p files (shows-html k p h)))
        | inl h ↦
            let ih =
              ap at (group_page_html p files rep h)
              ∙ group_pages-collapsed k files (add_page pages p rep) in
            let one = add_page-collapsed k p rep h in
            elim (Bool-cases (shows k p)) [
              | inl s ↦
                  let here = rw s at one in
                  ih
                  ∙ ap (λ o. after_pages o (showing k files)) here
                  ∙ after_pages-cons old p (showing k files)
                  ∙ ap (after_pages old) (sym (showing-in k p files s))
              | inr s ↦
                  let here = rw s at one in
                  ih
                  ∙ ap (λ o. after_pages o (showing k files)) here
                  ∙ ap (after_pages old) (sym (showing-out k p files s))
            ]
      ]
