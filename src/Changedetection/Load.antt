-- ===== src/Changedetection/Load.antt =====
-- internal/changedetection/detector.go: `LoadSnapshots`. What os and encoding/json make of a file is part
-- of its entry; `sort.Slice` is `sort`.
use mathlib.Core.List.{Permᴰ}
use omegacrawl.Base.{
  ℕ, Bool, true, false, not, ◌&&◌, ◌||◌, List, [], ◌∷◌, ◌++◌, if◌then◌else◌, ltb, length, take, All,
  ◌≤◌, Option, none, some,
}
use omegacrawl.Base.Bytes.{lookup, insert}
use omegacrawl.Errors.Classify.{codes}
use omegacrawl.Storage.Clean.{has_suffix}
use omegacrawl.Changedetection.{Snapshot, Detector}
use omegacrawl.Changedetection.Capture.{with_snapshots}
pub mod Stable
pub mod Newest

-- A file of the snapshot directory: `snapshot` is what reading and parsing it gives.
pub record DirEntry : Type 0 where
  pub is_dir : Bool
  pub name : List ℕ
  pub snapshot : Option Snapshot

-- The snapshot of a file, unless the file is skipped.
unfoldable pub read_snapshot : DirEntry → Option Snapshot
read_snapshot f = if f.is_dir || not (has_suffix f.name (codes ".json")) then none else f.snapshot

unfoldable pub add_snapshot :
    List (List ℕ × List Snapshot) → Snapshot → List (List ℕ × List Snapshot)
unfolding lookup insert
add_snapshot groups s =
    let old : List Snapshot = elim (lookup s.url groups) [ none ↦ [] | some l ↦ l ] in
    insert s.url (old ++ s ∷ []) groups

-- The loop of `LoadSnapshots` over the files: the snapshots of each URL in the order of the files.
unfoldable pub group_snapshots :
    List (List ℕ × List Snapshot) → List DirEntry → List (List ℕ × List Snapshot)
unfolding read_snapshot add_snapshot
group_snapshots groups [] = groups
group_snapshots groups (f ∷ files) =
    group_snapshots (elim (read_snapshot f) [ none ↦ groups | some s ↦ add_snapshot groups s ])
      files

unfoldable pub trimmed : ℕ → List Snapshot → List Snapshot
trimmed max l = if ltb max (length l) then take max l else l

-- What `sort.Slice` promises of the snapshots that it orders by `After`: they are the same ones, with
-- no newer one behind. Those of one instant stand in any order.
abbrev pub IsNewest : Snapshot → List Snapshot → Type 0
IsNewest s l = All (λ (t : Snapshot). t.timestamp ≤ s.timestamp) l

abbrev pub IsNewestFirst : List Snapshot → Type 0
IsNewestFirst [] = Unit
IsNewestFirst (s ∷ l) = IsNewest s l × IsNewestFirst l

pub record IsSort (sort : List Snapshot → List Snapshot) : Type 0 where
  pub same : (l : List Snapshot) → Permᴰ l (sort l)
  pub ordered : (l : List Snapshot) → IsNewestFirst (sort l)

module _ (sort : List Snapshot → List Snapshot) where
  unfoldable pub load_groups :
      ℕ
      → List (List ℕ × List Snapshot)
      → List (List ℕ × List Snapshot)
      → List (List ℕ × List Snapshot)
  unfolding trimmed
  load_groups max [] loaded = loaded
  load_groups max ((url, l) ∷ groups) loaded =
      load_groups max groups (insert url (trimmed max (sort l)) loaded)

  -- `LoadSnapshots`, of the files that `os.ReadDir` gives, or `none` for its error.
  unfoldable pub load_snapshots : Detector → Option (List DirEntry) → Option Detector
  unfolding group_snapshots load_groups
  load_snapshots d none = none
  load_snapshots d (some files) =
      some (with_snapshots d (load_groups d.max_snapshots (group_snapshots [] files) d.snapshots))
