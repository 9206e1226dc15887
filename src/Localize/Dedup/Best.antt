-- ===== src/Localize/Dedup/Best.antt =====
-- internal/localize/dedup.go: the pages that are copied are the best of their documents.
use mathlib.Core.Path.{subst}
use mathlib.Core.List.{Memᴰ}
use text.Mathlib.Text.{◌==◌}
use text.Mathlib.TextEquality.{eq_iff}
use omegacrawl.Base.{
  some, ◌≡◌, refl, sym, ap, ◌∙◌, true, false, not, ◌&&◌, List, [], ◌∷◌, String, arith, ◌⊎◌, inl,
  inr, ◌↔◌, Bool-cases, Option-cases,
}
use omegacrawl.Base.Dict
use omegacrawl.Sync.Keyed.{Has}
use omegacrawl.Sync.Laws.{Distinct}
use omegacrawl.Sync.Entries.{Distinct-insert, lookup_of_Has, Has-of_lookup}
use omegacrawl.Localize.Dedup.{Pages, Group, DedupReport, add_page, group_pages, no_pages}
use omegacrawl.Localize.Dedup.Copy.{is_kept, lies_inside, copied}
use omegacrawl.Localize.Dedup.Order.{beats, beats_total}
use omegacrawl.Localize.Dedup.Groups.{Shows, Winner, At, Grouped, group_pages-Grouped}

is_kept-Has :
    (p : String) (groups : List (String × Group))
    → is_kept p groups ≡ true
    → (k : String) × (g : Group) × Has (k, g) groups × (g.rep_file ≡ p)
unfolding is_kept
is_kept-Has p [] h = absurd (ground arith)
is_kept-Has p ((j, w) ∷ groups) h = elim (Bool-cases (w.rep_file == p)) [
  | inl e ↦ (j, w, inl refl, ground (arith, eq_iff w.rep_file p))
  | inr e ↦ let (k, g, m, q) = is_kept-Has p groups (ground arith) in (k, g, inr m, q)
]

is_kept_of_Has :
    (k : String) (g : Group) (groups : List (String × Group))
    → Has (k, g) groups
    → is_kept g.rep_file groups ≡ true
unfolding is_kept
is_kept_of_Has k g [] h = absurd h
is_kept_of_Has k g ((j, w) ∷ groups) (inl e) =
    let p : w.rep_file ≡ g.rep_file = ap (λ x. x.1.rep_file) e in
    ground (arith, eq_iff w.rep_file g.rep_file)
is_kept_of_Has k g ((j, w) ∷ groups) (inr m) = ground (arith, is_kept_of_Has k g groups m)

module _ (pages : Pages) where
  copied_only :
      (p : String) (files : List String) (groups : List (String × Group))
      → pages.is_html_page_path p ≡ true
      → Memᴰ p (copied pages files groups)
      → Memᴰ p files × (is_kept p groups ≡ true) × (lies_inside pages p ≡ true)
  unfolding copied
  copied_only p [] groups html m = elim m [ ]
  copied_only p (q ∷ files) groups html m =
      elim (Bool-cases (pages.is_html_page_path q && not (is_kept q groups))) [
        | inl e ↦
            let (l, r, i) = copied_only p files groups html (rw (copied, e) at m) in
            (Memᴰ.tail l, r, i)
        | inr e ↦ elim (Bool-cases (lies_inside pages q)) [
          | inl i ↦ elim (rw (copied, e, i) at m) [
            | Memᴰ.head h ↦
                let last : is_kept p groups ≡ true =
                  subst (λ x. is_kept x groups ≡ true) (sym h)
                    (ground (arith, e, subst (λ x. pages.is_html_page_path x ≡ true) h html)) in
                (Memᴰ.head h, last, subst (λ x. lies_inside pages x ≡ true) (sym h) i)
            | Memᴰ.tail n ↦ let (l, r, i) = copied_only p files groups html n in (Memᴰ.tail l, r, i)
          ]
          | inr i ↦
              let (l, r, j) = copied_only p files groups html (rw (copied, e, i) at m) in
              (Memᴰ.tail l, r, j)
        ]
      ]

  copied_all :
      (p : String) (files : List String) (groups : List (String × Group))
      → is_kept p groups ≡ true
      → lies_inside pages p ≡ true
      → Memᴰ p files
      → Memᴰ p (copied pages files groups)
  unfolding copied
  copied_all p [] groups kept inside m = elim m [ ]
  copied_all p (q ∷ files) groups kept inside (Memᴰ.head h) =
      let e : (pages.is_html_page_path q && not (is_kept q groups)) ≡ false =
        ground (arith, subst (λ x. is_kept x groups ≡ true) h kept) in
      let i : lies_inside pages q ≡ true = subst (λ x. lies_inside pages x ≡ true) h inside in
      rw (copied, e, i) (Memᴰ.head h)
  copied_all p (q ∷ files) groups kept inside (Memᴰ.tail n) =
      let rest = copied_all p files groups kept inside n in
      elim (Bool-cases (pages.is_html_page_path q && not (is_kept q groups))) [
        | inl e ↦ rw (copied, e) rest
        | inr e ↦ elim (Bool-cases (lies_inside pages q)) [
          | inl i ↦ rw (copied, e, i) (Memᴰ.tail rest)
          | inr i ↦ rw (copied, e, i) rest
        ]
      ]

  add_page-Distinct :
      (p : String) (rep : DedupReport)
      → Distinct rep.groups
      → Distinct (add_page pages p rep).groups
  unfolding add_page
  add_page-Distinct p rep d =
      let u = pages.url_from_local_path p in
      elim (Bool-cases (pages.is_noise_path u)) [
        | inl n ↦ rw (add_page, n) d
        | inr n ↦ elim (Option-cases (Dict.lookup (pages.canonical_key u) rep.groups)) [
          | inl e ↦ rw (add_page, n, e) (Distinct-insert (pages.canonical_key u) _ rep.groups d)
          | inr (g, e) ↦
              rw (add_page, n, e) (Distinct-insert (pages.canonical_key u) _ rep.groups d)
        ]
      ]

  pub group_pages-Distinct :
      (files : List String) (rep : DedupReport)
      → Distinct rep.groups
      → Distinct (group_pages pages files rep).groups
  unfolding group_pages
  group_pages-Distinct [] rep d = d
  group_pages-Distinct (p ∷ files) rep d = elim (Bool-cases (pages.is_html_page_path p)) [
    | inl e ↦
        rw (group_pages, e)
          (group_pages-Distinct files (add_page pages p rep) (add_page-Distinct p rep d))
    | inr e ↦ rw (group_pages, e) (group_pages-Distinct files rep d)
  ]

  grouped :
      (files : List String)
      → Grouped pages (λ q. ⊥ ⊎ Memᴰ q files) (group_pages pages files no_pages)
  unfolding Dict.lookup
  grouped files = group_pages-Grouped pages (λ q. ⊥) files no_pages (λ k q m s. m)

  -- The preferred page of a document is the representative of its group.
  pub preferred_group :
      (files : List String) (k p : String)
      → ((a b : String)
          → Memᴰ a files
          → Memᴰ b files
          → pages.rel_within a ≡ pages.rel_within b
          → a ≡ b)
      → Winner pages (λ q. Memᴰ q files) k p
      → (g : Group) × (Dict.lookup k (group_pages pages files no_pages).groups ≡ some g)
        × (g.rep_file ≡ p)
  preferred_group files k p inj w =
      let groups = (group_pages pages files no_pages).groups in
      elim (Option-cases (Dict.lookup k groups)) [
        | inl e ↦ absurd (
            subst (At pages (λ q. ⊥ ⊎ Memᴰ q files) k) e (grouped files k) p (inr w.member) w.shows)
        | inr (g, e) ↦
            let (v, _) = subst (At pages (λ q. ⊥ ⊎ Memᴰ q files) k) e (grouped files k) in
            let there : Memᴰ g.rep_file files = elim v.member [ inl n ↦ absurd n | inr n ↦ n ] in
            (
              g,
              e,
              inj g.rep_file p there w.member (
                  beats_total pages g.rep_file p (w.unbeaten g.rep_file there v.shows)
                    (v.unbeaten p (inr w.member) w.shows)),
            )
      ]

  -- The representative of a group is a file that shows the document of the group's key.
  pub group_shows :
      (files : List String) (j : String) (g : Group)
      → Has (j, g) (group_pages pages files no_pages).groups
      → Memᴰ g.rep_file files × Shows pages j g.rep_file
  group_shows files j g h =
      let groups = (group_pages pages files no_pages).groups in
      let d : Distinct groups = group_pages-Distinct files no_pages tt in
      let (v, _) =
        subst (At pages (λ q. ⊥ ⊎ Memᴰ q files) j) (lookup_of_Has j g groups d h)
          (grouped files j) in
      (elim v.member [ inl n ↦ absurd n | inr n ↦ n ], v.shows)

  -- Where no two of the files have the same path below the root, a page that counts is copied exactly if no
  -- page of the same document is preferred to it (less noisy, or as noisy and first in the order of
  -- paths) and its path from the root is none that the copy skips: `.`, one that begins with `..`, or
  -- one that `filepath.Rel` cannot give.
  -- The order in which the files are met does not matter.
  pub copied-Winner :
      (files : List String) (k p : String)
      → ((a b : String)
          → Memᴰ a files
          → Memᴰ b files
          → pages.rel_within a ≡ pages.rel_within b
          → a ≡ b)
      → Shows pages k p
      → Memᴰ p (copied pages files (group_pages pages files no_pages).groups)
        ↔ (Winner pages (λ q. Memᴰ q files) k p × (lies_inside pages p ≡ true))
  copied-Winner files k p inj s =
      let groups = (group_pages pages files no_pages).groups in
      let d : Distinct groups = group_pages-Distinct files no_pages tt in
      (
        (λ m.
            let (l, kept, inside) = copied_only p files groups s.html m in
            let (j, g, h, e) = is_kept-Has p groups kept in
            let (v, _) =
              subst (At pages (λ q. ⊥ ⊎ Memᴰ q files) j) (lookup_of_Has j g groups d h)
                (grouped files j) in
            let same : k ≡ j = sym s.key ∙ ap key (sym e) ∙ v.shows.key in
            (
              record {
                shows = s;
                member = l;
                unbeaten = λ q n t.
                    subst (λ x. beats pages q x ≡ false) e
                      (v.unbeaten q (inr n) (subst (λ x. Shows pages x q) same t));
              },
              inside,
            )),
        (λ (w, inside).
            let (g, e, same) = preferred_group files k p inj w in
            copied_all p files groups
              (subst (λ x. is_kept x groups ≡ true) same
                (is_kept_of_Has k g groups (Has-of_lookup k g groups e)))
              inside w.member),
      )
    where
      key : String → String
      key x = pages.canonical_key (pages.url_from_local_path x)
