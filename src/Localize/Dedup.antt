-- ===== src/Localize/Dedup.antt =====
-- internal/localize/dedup.go: `Dedup` keeps one page of each group of pages that show the same
-- document. Files are their paths; `rel` is the path from the source's root that `filepath.Rel` gives, or
-- `none` for its error, and `rel_within` that path with `/`, or the file's own where there is none.
use omegacrawl.Base.{
  ℕ, ◌+◌, ◌≡◌, Bool, true, false, ◌&&◌, ◌||◌, List, [], ◌∷◌, ◌++◌, Option, none, some, String, ltb,
  ◌==◌, if◌then◌else◌,
}
use omegacrawl.Base.Dict
pub mod Order
pub mod Copy
pub mod Manifest
pub mod Groups
pub mod Best
pub mod Counts
pub mod Collapsed
pub mod Listed
mod Examples

-- What `Dedup` asks of a file or of its URL.
pub record Pages : Type 0 where
  pub is_html_page_path : String → Bool
  pub url_from_local_path : String → String
  pub is_noise_path : String → Bool
  pub canonical_key : String → String
  pub clean_weight : String → ℕ
  pub rel : String → Option (List ℕ)
  pub rel_within : String → List ℕ

pub record Group : Type 0 where
  pub rep_file : String
  pub rep_weight : ℕ
  pub collapsed : List (List ℕ)

-- The report, without the names of the two directories; `groups` is the map that `Dedup` fills beside it.
pub record DedupReport : Type 0 where
  pub files_total : ℕ
  pub pages_total : ℕ
  pub pages_kept : ℕ
  pub pages_collapsed : ℕ
  pub assets_copied : ℕ
  pub manifest : List (List ℕ × List (List ℕ))
  pub groups : List (String × Group)

-- The report and the groups before the loop.
abbrev pub no_pages : DedupReport
no_pages = record {
  files_total = 0;
  pages_total = 0;
  pages_kept = 0;
  pages_collapsed = 0;
  assets_copied = 0;
  manifest = [];
  groups = [];
}

-- `a < b` on the bytes of two paths.
unfoldable pub bytes_less : List ℕ → List ℕ → Bool
bytes_less [] [] = false
bytes_less [] (y ∷ ys) = true
bytes_less (x ∷ xs) [] = false
bytes_less (x ∷ xs) (y ∷ ys) = ltb x y || (x == y && bytes_less xs ys)

module _ (pages : Pages) where
  -- Whether the file takes the place of the group's representative.
  unfoldable pub is_lighter : ℕ → String → Group → Bool
  unfolding bytes_less
  is_lighter w p g =
      ltb w g.rep_weight
      || (w == g.rep_weight && bytes_less (pages.rel_within p) (pages.rel_within g.rep_file))

  unfoldable pub join_group : ℕ → String → Group → Group
  unfolding is_lighter
  join_group w p g =
      let more = g.collapsed ++ pages.rel_within p ∷ [] in
      if is_lighter w p g
      then record { rep_file = p; rep_weight = w; collapsed = more }
      else record { rep_file = g.rep_file; rep_weight = g.rep_weight; collapsed = more }

  -- The loop's body for an HTML page.
  unfoldable pub add_page : String → DedupReport → DedupReport
  unfolding join_group
  add_page p rep =
      let u = pages.url_from_local_path p in
      if pages.is_noise_path u
      then record rep {
        pages_total = rep.pages_total + 1;
        pages_collapsed = rep.pages_collapsed + 1;
      }
      else let key = pages.canonical_key u in
        let w = pages.clean_weight u in
        elim (Dict.lookup key rep.groups) [
          | none ↦ record rep {
            pages_total = rep.pages_total + 1;
            pages_kept = rep.pages_kept + 1;
            groups =
                Dict.insert key (record { rep_file = p; rep_weight = w; collapsed = [] })
                  rep.groups;
          }
          | some g ↦ record rep {
            pages_total = rep.pages_total + 1;
            pages_collapsed = rep.pages_collapsed + 1;
            groups = Dict.insert key (join_group w p g) rep.groups;
          }
        ]

  -- The loop over the files.
  unfoldable pub group_pages : List String → DedupReport → DedupReport
  unfolding add_page
  group_pages [] rep = rep
  group_pages (p ∷ files) rep =
      let next = add_page p rep in
      group_pages files (if pages.is_html_page_path p then next else rep)
