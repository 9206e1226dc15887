-- ===== src/Localize/Dedup/Counts.antt =====
-- internal/localize/dedup.go: the counts of the report.
use omegacrawl.Base.{
  ◌+◌, ◌≡◌, List, [], ◌∷◌, String, arith, inl, inr, Bool-cases, Option-cases, length,
}
use omegacrawl.Base.Dict
use omegacrawl.Localize.Dedup.{Pages, DedupReport, add_page, group_pages}

module _ (pages : Pages) where
  pub record IsCounted (rep : DedupReport) : Type 0 where
    pub total : rep.pages_total ≡ rep.pages_kept + rep.pages_collapsed
    pub kept : rep.pages_kept ≡ length rep.groups

  add_page-IsCounted :
      (p : String) (rep : DedupReport) → IsCounted rep → IsCounted (add_page pages p rep)
  unfolding add_page
  add_page-IsCounted p rep h =
      let u = pages.url_from_local_path p in
      let key = pages.canonical_key u in
      elim (Bool-cases (pages.is_noise_path u)) [
        | inl n ↦ rw (add_page, n) (record { total = omega (arith, h.total); kept = h.kept })
        | inr n ↦ elim (Option-cases (Dict.lookup key rep.groups)) [
          | inl e ↦
              rw (add_page, n, e)
                (record {
                  total = omega (arith, h.total);
                  kept = rw (Dict.length-insert key _ rep.groups, e) (omega (arith, h.kept));
                })
          | inr (g, e) ↦
              rw (add_page, n, e)
                (record {
                  total = omega (arith, h.total);
                  kept = rw (Dict.length-insert key _ rep.groups, e) h.kept;
                })
        ]
      ]

  -- After the pages are grouped each page that was met is kept or collapsed, and as many pages are
  -- kept as there are groups.
  pub group_pages-IsCounted :
      (files : List String) (rep : DedupReport)
      → IsCounted rep
      → IsCounted (group_pages pages files rep)
  unfolding group_pages
  group_pages-IsCounted [] rep h = h
  group_pages-IsCounted (p ∷ files) rep h = elim (Bool-cases (pages.is_html_page_path p)) [
    | inl e ↦
        rw (group_pages, e)
          (group_pages-IsCounted files (add_page pages p rep) (add_page-IsCounted p rep h))
    | inr e ↦ rw (group_pages, e) (group_pages-IsCounted files rep h)
  ]
