-- ===== src/Localize/Dedup/Copy.antt =====
-- internal/localize/dedup.go: the files that `Dedup` copies.
use text.Mathlib.Text.{◌==◌}
use omegacrawl.Errors.Classify.{codes}
use omegacrawl.Errors.Contains.{bytes_equal}
use omegacrawl.Robots.Match.{has_prefix}
use omegacrawl.Base.{Bool, none, some, false, not, ◌&&◌, ◌||◌, List, [], ◌∷◌, String, if◌then◌else◌}
use omegacrawl.Localize.Dedup.{Pages, Group}

-- `kept[p]`
unfoldable pub is_kept : String → List (String × Group) → Bool
is_kept p [] = false
is_kept p ((key, g) ∷ groups) = (g.rep_file == p) || is_kept p groups

module _ (pages : Pages) where
  -- The path from the source's root is one that the second loop copies.
  unfoldable pub lies_inside : String → Bool
  lies_inside p = elim (pages.rel p) [
    | none ↦ false
    | some rel ↦ not (bytes_equal rel (codes ".") || has_prefix rel (codes ".."))
  ]

  -- The files that the second loop copies.
  unfoldable pub copied : List String → List (String × Group) → List String
  unfolding is_kept lies_inside
  copied [] groups = []
  copied (p ∷ files) groups =
      let rest = copied files groups in
      if pages.is_html_page_path p && not (is_kept p groups)
      then rest
      else if lies_inside p
      then p ∷ rest
      else rest
