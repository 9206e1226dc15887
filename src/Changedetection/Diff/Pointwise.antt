-- ===== src/Changedetection/Diff/Pointwise.antt =====
-- internal/changedetection/detector.go: the change of each selector.
use omegacrawl.Base.{
  ℕ, ◌≡◌, refl, ◌∙◌, inl, inr, List, [], ◌∷◌, ◌++◌, arith, if◌then◌else◌, Option, none, some,
  Option-cases,
}
use omegacrawl.Base.Bytes.{lookup, insert, lookup-insert, insert-IsDistinct, IsDistinct}
use omegacrawl.Errors.Contains.{bytes_equal, bytes_equal_iff}
use omegacrawl.Changedetection.{Change, StructureElement, Snapshot, Detector}
use omegacrawl.Changedetection.Diff.{
  StructMap, struct_map, should_ignore, change_removed, change_added, change_modified,
  removed_changes, other_changes, diff_maps, diff_snapshots,
}
use omegacrawl.Changedetection.Diff.Order.{
  change_of, HasNoRepeat, IsAscending, change_of-sort_changes, sort_changes-IsAscending,
}

-- The last element with the selector.
unfoldable pub last_with : List ℕ → List StructureElement → Option StructureElement
last_with s [] = none
last_with s (e ∷ es) = elim (last_with s es) [
  | some f ↦ some f
  | none ↦ if bytes_equal e.selector s then some e else none
]

or_found : Option StructureElement → Option StructureElement → Option StructureElement
or_found (some e) o = some e
or_found none o = o

lookup-struct_map_onto :
    (s : List ℕ) (m : StructMap) (es : List StructureElement)
    → lookup s (struct_map m es) ≡ or_found (last_with s es) (lookup s m)
unfolding struct_map last_with or_found
lookup-struct_map_onto s m [] = refl
lookup-struct_map_onto s m (e ∷ es) =
    ground
      (arith, lookup-struct_map_onto s (insert e.selector e m) es, lookup-insert e.selector s e m)

pub lookup-struct_map :
    (s : List ℕ) (es : List StructureElement) → lookup s (struct_map [] es) ≡ last_with s es
unfolding lookup or_found
lookup-struct_map s es = ground (arith, lookup-struct_map_onto s [] es)

struct_map-IsDistinct :
    (m : StructMap) (es : List StructureElement) → IsDistinct m → IsDistinct (struct_map m es)
unfolding struct_map
struct_map-IsDistinct m [] d = d
struct_map-IsDistinct m (e ∷ es) d =
    struct_map-IsDistinct (insert e.selector e m) es (insert-IsDistinct e.selector e m d)

change_of-append :
    (s : List ℕ) (l r : List Change)
    → change_of s (l ++ r) ≡ (elim (change_of s l) [ some c ↦ some c | none ↦ change_of s r ])
unfolding change_of
change_of-append s [] r = refl
change_of-append s (c ∷ l) r = ground (arith, change_of-append s l r)

module _ (ignores : List (List ℕ)) (at : ℕ) where
  -- The change to report of a selector with the old and the new element.
  unfoldable pub change_between :
      List ℕ → Option StructureElement → Option StructureElement → Option Change
  change_between s none none = none
  change_between s (some o) none =
      if should_ignore ignores s then none else some (change_removed at s o)
  change_between s none (some n) =
      if should_ignore ignores s then none else some (change_added at s n)
  change_between s (some o) (some n) =
      if bytes_equal o.text_hash n.text_hash
      then none
      else if should_ignore ignores s
      then none
      else some (change_modified at s o n)

  module _ (s : List ℕ) where
    change_of-removed_present :
        (new old : StructMap) (n : StructureElement)
        → lookup s new ≡ some n
        → change_of s (removed_changes ignores at new old) ≡ none
    unfolding removed_changes change_of
    change_of-removed_present new [] n p = refl
    change_of-removed_present new ((k, e) ∷ old) n p =
        ground (arith, change_of-removed_present new old n p, bytes_equal_iff k s)

    change_of-removed_absent :
        (new old : StructMap)
        → lookup s new ≡ none
        → change_of s (removed_changes ignores at new old) ≡ change_between s (lookup s old) none
    unfolding removed_changes change_of lookup change_between
    change_of-removed_absent new [] p = refl
    change_of-removed_absent new ((k, e) ∷ old) p =
        ground (arith, change_of-removed_absent new old p, bytes_equal_iff k s)

    change_of-other_absent :
        (old new : StructMap)
        → lookup s new ≡ none
        → change_of s (other_changes ignores at old new) ≡ none
    unfolding other_changes change_of lookup
    change_of-other_absent old [] p = refl
    change_of-other_absent old ((k, e) ∷ new) p =
        ground (arith, change_of-other_absent old new, bytes_equal_iff k s)

    change_of-other_present :
        (old new : StructMap) (n : StructureElement)
        → IsDistinct new
        → lookup s new ≡ some n
        → change_of s (other_changes ignores at old new) ≡ change_between s (lookup s old) (some n)
    unfolding other_changes change_of lookup change_between
    change_of-other_present old [] n d p = ground arith
    change_of-other_present old ((k, e) ∷ new) n d p = ground (
      arith,
      change_of-other_present old new n,
      change_of-other_absent old new,
      bytes_equal_iff k s,
    )

  change_of-removed_none :
      (s : List ℕ) (new old : StructMap)
      → lookup s old ≡ none
      → change_of s (removed_changes ignores at new old) ≡ none
  unfolding change_between
  change_of-removed_none s new old p = elim (Option-cases (lookup s new)) [
    | inl e ↦ change_of-removed_absent s new old e ∙ rw p refl
    | inr (n, e) ↦ change_of-removed_present s new old n e
  ]

  removed-HasNoRepeat :
      (new old : StructMap) → IsDistinct old → HasNoRepeat (removed_changes ignores at new old)
  unfolding removed_changes
  removed-HasNoRepeat new [] d = tt
  removed-HasNoRepeat new ((k, e) ∷ old) (f, d) =
      ground (arith, removed-HasNoRepeat new old d, change_of-removed_none k new old f)

  other-HasNoRepeat :
      (old new : StructMap) → IsDistinct new → HasNoRepeat (other_changes ignores at old new)
  unfolding other_changes
  other-HasNoRepeat old [] d = tt
  other-HasNoRepeat old ((k, e) ∷ new) (f, d) =
      ground (arith, other-HasNoRepeat old new d, change_of-other_absent k old new f)

  changes-HasNoRepeat :
      (whole new old : StructMap)
      → IsDistinct old
      → IsDistinct new
      → HasNoRepeat (removed_changes ignores at new old ++ other_changes ignores at whole new)
  unfolding removed_changes
  changes-HasNoRepeat whole new [] d n = other-HasNoRepeat whole new n
  changes-HasNoRepeat whole new ((k, e) ∷ old) (f, d) n =
      let ih = changes-HasNoRepeat whole new old d n in
      let apart =
        change_of-append k (removed_changes ignores at new old)
          (other_changes ignores at whole new) in
      ground
        (arith, ih, apart, change_of-removed_none k new old f, change_of-other_absent k whole new)

  change_of-changes :
      (s : List ℕ) (old new : StructMap)
      → IsDistinct new
      → change_of s (removed_changes ignores at new old ++ other_changes ignores at old new)
        ≡ change_between s (lookup s old) (lookup s new)
  unfolding change_between
  change_of-changes s old new n = elim (Option-cases (lookup s new)) [
    | inl e ↦ ground (
      arith,
      change_of-append s (removed_changes ignores at new old) (other_changes ignores at old new),
      change_of-removed_absent s new old e,
      change_of-other_absent s old new e,
    )
    | inr (f, e) ↦ ground (
      arith,
      change_of-append s (removed_changes ignores at new old) (other_changes ignores at old new),
      change_of-removed_present s new old f e,
      change_of-other_present s old new f n e,
    )
  ]

-- The changes between two snapshots are sorted by selector, no selector stands twice, and the change of
-- each selector is the one between the last elements with it in the old and in the new snapshot: none
-- where both are missing, have the same text or the selector is ignored, and else an element removed,
-- added or modified.
pub diff_snapshots-change_between :
    (d : Detector) (old new : Snapshot) (s : List ℕ)
    → IsAscending (diff_snapshots d old new)
      × (change_of s (diff_snapshots d old new)
          ≡ change_between d.ignore_selectors new.timestamp s
              (last_with s old.structure)
              (last_with s new.structure))
unfolding diff_snapshots diff_maps
diff_snapshots-change_between d old new s =
    let o = struct_map [] old.structure in
    let n = struct_map [] new.structure in
    let distinct : IsDistinct n = struct_map-IsDistinct [] new.structure tt in
    let apart =
      changes-HasNoRepeat d.ignore_selectors new.timestamp o n o
        (struct_map-IsDistinct [] old.structure tt) distinct in
    (
      sort_changes-IsAscending _ apart,
      change_of-sort_changes s _ apart
          ∙ change_of-changes d.ignore_selectors new.timestamp s o n distinct
          ∙ rw (lookup-struct_map s old.structure, lookup-struct_map s new.structure) refl,
    )
