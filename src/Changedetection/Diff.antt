-- ===== src/Changedetection/Diff.antt =====
-- internal/changedetection/detector.go: `diffSnapshots`. A map is walked in the order of its
-- association list; the changes are sorted at the end.
use omegacrawl.Base.{
  ℕ, Bool, true, false, not, ◌&&◌, ◌||◌, List, [], ◌∷◌, ◌++◌, if◌then◌else◌, Option, none, some,
}
use omegacrawl.Base.Bytes.{lookup, insert}
use omegacrawl.Errors.Contains.{bytes_equal, contains}
use omegacrawl.Localize.Dedup.{bytes_less}
use omegacrawl.Changedetection.{ChangeType, Change, StructureElement, Snapshot, Detector}
pub mod Order
pub mod Pointwise
pub mod Applied

abbrev pub StructMap : Type 0
StructMap = List (List ℕ × StructureElement)

-- `oldStructMap` and `newStructMap`: the last element with a selector stays.
unfoldable pub struct_map : StructMap → List StructureElement → StructMap
unfolding insert
struct_map m [] = m
struct_map m (e ∷ es) = struct_map (insert e.selector e m) es

-- The loop of `shouldIgnoreSelector`.
unfoldable pub should_ignore : List (List ℕ) → List ℕ → Bool
should_ignore [] selector = false
should_ignore (ignore ∷ ignores) selector =
    contains selector ignore || should_ignore ignores selector

abbrev pub change_removed : ℕ → List ℕ → StructureElement → Change
change_removed at selector old_elem = record {
  change_type = ChangeType.removed;
  selector = selector;
  old_value = old_elem.text_hash;
  new_value = [];
  attributes = old_elem.attributes;
  timestamp = at;
}

abbrev pub change_added : ℕ → List ℕ → StructureElement → Change
change_added at selector new_elem = record {
  change_type = ChangeType.added;
  selector = selector;
  old_value = [];
  new_value = new_elem.text_hash;
  attributes = new_elem.attributes;
  timestamp = at;
}

abbrev pub change_modified : ℕ → List ℕ → StructureElement → StructureElement → Change
change_modified at selector old_elem new_elem = record {
  change_type = ChangeType.modified;
  selector = selector;
  old_value = old_elem.text_hash;
  new_value = new_elem.text_hash;
  attributes = new_elem.attributes;
  timestamp = at;
}

module _ (ignores : List (List ℕ)) (at : ℕ) where
  -- The loop over the old elements.
  unfoldable pub removed_changes : StructMap → StructMap → List Change
  removed_changes new_map [] = []
  removed_changes new_map ((selector, old_elem) ∷ old_map) =
      let rest = removed_changes new_map old_map in
      elim (lookup selector new_map) [
        | some e ↦ rest
        | none ↦
            if should_ignore ignores selector
            then rest
            else change_removed at selector old_elem ∷ rest
      ]

  -- The loop over the new elements.
  unfoldable pub other_changes : StructMap → StructMap → List Change
  other_changes old_map [] = []
  other_changes old_map ((selector, new_elem) ∷ new_map) =
      let rest = other_changes old_map new_map in
      elim (lookup selector old_map) [
        | none ↦
            if should_ignore ignores selector
            then rest
            else change_added at selector new_elem ∷ rest
        | some old_elem ↦
            if bytes_equal old_elem.text_hash new_elem.text_hash
            then rest
            else if should_ignore ignores selector
            then rest
            else change_modified at selector old_elem new_elem ∷ rest
      ]

-- The sort by selector.
unfoldable pub insert_change : Change → List Change → List Change
insert_change c [] = c ∷ []
insert_change c (d ∷ ds) =
    let rest = insert_change c ds in
    if bytes_less c.selector d.selector then c ∷ d ∷ ds else d ∷ rest

unfoldable pub sort_changes : List Change → List Change
unfolding insert_change
sort_changes [] = []
sort_changes (c ∷ cs) = insert_change c (sort_changes cs)

unfoldable pub diff_maps : List (List ℕ) → ℕ → StructMap → StructMap → List Change
unfolding removed_changes other_changes sort_changes
diff_maps ignores at old_map new_map =
    sort_changes
      (removed_changes ignores at new_map old_map ++ other_changes ignores at old_map new_map)

-- `diffSnapshots`
unfoldable pub diff_snapshots : Detector → Snapshot → Snapshot → List Change
unfolding struct_map diff_maps
diff_snapshots d old new =
    diff_maps d.ignore_selectors new.timestamp (struct_map [] old.structure)
      (struct_map [] new.structure)
