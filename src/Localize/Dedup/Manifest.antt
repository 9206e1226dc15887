-- ===== src/Localize/Dedup/Manifest.antt =====
-- internal/localize/dedup.go and copy.go: the manifest of the report, and `Dedup` as a whole.
use omegacrawl.Base.{ℕ, ◌+◌, List, [], ◌∷◌, String, if◌then◌else◌, length}
use omegacrawl.Base.Bytes.{insert}
use omegacrawl.Localize.Dedup.{Pages, Group, DedupReport, bytes_less, group_pages, no_pages}
use omegacrawl.Localize.Dedup.Copy.{copied}

-- The inner loop of `sortStrings`: the text goes before those of the sorted part, the last one first, that
-- it is less than.
unfoldable pub move_left : List ℕ → List (List ℕ) → List (List ℕ)
unfolding bytes_less
move_left s [] = s ∷ []
move_left s (t ∷ sorted) =
    let rest = move_left s sorted in if bytes_less s t then t ∷ rest else s ∷ t ∷ sorted

-- The outer loop, onto the sorted part.
unfoldable pub sort_onto : List (List ℕ) → List (List ℕ) → List (List ℕ)
unfolding move_left
sort_onto sorted [] = sorted
sort_onto sorted (s ∷ l) = sort_onto (move_left s sorted) l

abbrev pub reversed : List (List ℕ) → List (List ℕ) → List (List ℕ)
reversed after [] = after
reversed after (s ∷ l) = reversed (s ∷ after) l

-- `sortStrings`
unfoldable pub sort_strings : List (List ℕ) → List (List ℕ)
unfolding sort_onto
sort_strings l = reversed [] (sort_onto [] l)

module _ (pages : Pages) where
  -- The loop over the groups that fills the manifest.
  unfoldable pub build_manifest :
      List (String × Group) → List (List ℕ × List (List ℕ)) → List (List ℕ × List (List ℕ))
  unfolding sort_strings insert
  build_manifest [] manifest = manifest
  build_manifest ((key, g) ∷ groups) manifest = build_manifest groups (elim g.collapsed [
    | [] ↦ manifest
    | c ∷ l ↦ insert (pages.rel_within g.rep_file) (sort_strings (c ∷ l)) manifest
  ])

  unfoldable pub count_assets : List String → ℕ
  count_assets [] = 0
  count_assets (p ∷ files) =
      let rest = count_assets files in if pages.is_html_page_path p then rest else rest + 1

  -- The report of `Dedup`, where no directory and no copy fails.
  unfoldable pub dedup : List String → DedupReport
  unfolding group_pages build_manifest count_assets copied
  dedup files =
      let rep = group_pages pages files no_pages in
      record rep {
        files_total = length files;
        assets_copied = count_assets (copied pages files rep.groups);
        manifest = build_manifest rep.groups [];
      }
