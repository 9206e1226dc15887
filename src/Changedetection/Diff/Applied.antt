-- ===== src/Changedetection/Diff/Applied.antt =====
-- internal/changedetection/detector.go: the changes as an account of the page.
use omegacrawl.Base.{ℕ, ◌≡◌, false, List, Option, none, some, arith, inl, inr, Option-cases}
use omegacrawl.Errors.Contains.{bytes_equal_iff}
use omegacrawl.Changedetection.{ChangeType, Change, Snapshot, Detector}
use omegacrawl.Changedetection.Diff.{should_ignore, diff_snapshots}
use omegacrawl.Changedetection.Diff.Order.{change_of}
use omegacrawl.Changedetection.Diff.Pointwise.{
  change_between, last_with, diff_snapshots-change_between,
}

-- The hash of the text that a snapshot has at a selector.
unfoldable pub hash_at : Snapshot → List ℕ → Option (List ℕ)
unfolding last_with
hash_at snapshot s = elim (last_with s snapshot.structure) [
  | none ↦ none
  | some e ↦ some e.text_hash
]

-- The hash at a selector once the changes are made.
unfoldable pub hash_after : List Change → (List ℕ → Option (List ℕ)) → List ℕ → Option (List ℕ)
unfolding change_of
hash_after changes before s = elim (change_of s changes) [
  | none ↦ before s
  | some c ↦ elim c.change_type [
    | ChangeType.removed ↦ none
    | ChangeType.added ↦ some c.new_value
    | ChangeType.modified ↦ some c.new_value
  ]
]

-- The changes made to the texts of the old snapshot give the texts of the new one, at each selector
-- that is not ignored.
pub hash_after-diff_snapshots :
    (d : Detector) (old new : Snapshot) (s : List ℕ)
    → should_ignore d.ignore_selectors s ≡ false
    → hash_after (diff_snapshots d old new) (hash_at old) s ≡ hash_at new s
unfolding hash_after hash_at change_between
hash_after-diff_snapshots d old new s h =
    let e = (diff_snapshots-change_between d old new s).1 in
    elim (Option-cases (last_with s old.structure)) [
      | inl o ↦ elim (Option-cases (last_with s new.structure)) [
        | inl n ↦ ground (arith, e)
        | inr (f, n) ↦ ground (arith, e)
      ]
      | inr (g, o) ↦ elim (Option-cases (last_with s new.structure)) [
        | inl n ↦ ground (arith, e)
        | inr (f, n) ↦ ground (arith, e, bytes_equal_iff g.text_hash f.text_hash)
      ]
    ]
