-- ===== src/Changedetection/Capture.antt =====
-- internal/changedetection/detector.go: the detector's operations, on the detector and the disk, of
-- type `Disk`. Parameters are crypto/sha256 with its hexadecimal print, `time.Format`, and what
-- os and encoding/json do to the disk; what a write answers is only logged.
use omegacrawl.Base.{
  ℕ, ◌-◌, Bool, true, false, not, ◌&&◌, ◌||◌, List, [], ◌∷◌, ◌++◌, if◌then◌else◌, ltb, leb, length,
  take, drop, Option, none, some,
}
use omegacrawl.Base.Bytes.{lookup, insert}
use omegacrawl.Errors.Classify.{codes}
use omegacrawl.Errors.Contains.{bytes_equal}
use omegacrawl.Storage.Clean.{join_paths, replace_byte, is_empty, has_suffix}
use omegacrawl.Changedetection.{
  Attributes, Change, StructureElement, Snapshot, DiffResult, Detector, snapshots_of, get_all_urls,
}
use omegacrawl.Changedetection.Diff.{diff_snapshots}
pub mod History
pub mod Compared

-- `d.snapshots = l`
abbrev pub with_snapshots : Detector → List (List ℕ × List Snapshot) → Detector
with_snapshots d l = record d { snapshots = l }

unfoldable pub safe_url : List ℕ → List ℕ
unfolding replace_byte
safe_url url = replace_byte 46 95 (replace_byte 58 95 (replace_byte 47 95 url))

-- The snapshots of a URL with a new one.
unfoldable pub with_newest : ℕ → Snapshot → List Snapshot → List Snapshot
with_newest max s l = if ltb max (length (s ∷ l)) then take max (s ∷ l) else s ∷ l

pub record Os (Disk : Type 0) : Type 0 where
  pub sha256 : List ℕ → List ℕ
  pub format : ℕ → List ℕ
  pub write_snapshot : Disk → List ℕ → Snapshot → Disk
  pub write_report : Disk → List ℕ → DiffResult → Disk
  pub remove : Disk → List ℕ → Disk

module _ {Disk : Type 0} (os : Os Disk) where
  unfoldable pub snapshot_path : Detector → List ℕ → ℕ → List ℕ
  unfolding safe_url
  snapshot_path d url at =
      join_paths
        (d.snapshot_dir ∷ (safe_url url ++ codes "_" ++ os.format at ++ codes ".json") ∷ [])

  unfoldable pub persist_snapshot : Detector → Disk → List ℕ → Snapshot → Disk
  unfolding snapshot_path
  persist_snapshot d disk url s = os.write_snapshot disk (snapshot_path d url s.timestamp) s

  unfoldable pub generate_report : Detector → Disk → DiffResult → Disk
  generate_report d disk r =
      let name =
        codes "change_report_"
        ++ replace_byte 47 95 r.url
        ++ codes "_"
        ++ os.format r.timestamp
        ++ codes ".json" in
      os.write_report disk (join_paths (d.report_dir ∷ name ∷ [])) r

  -- The snapshot becomes the newest one of the URL, and is written to the disk.
  unfoldable pub keep_snapshot : Detector → Disk → List ℕ → Snapshot → Detector × Disk × Snapshot
  unfolding with_newest persist_snapshot
  keep_snapshot d disk url s = (
    with_snapshots d (insert url (with_newest d.max_snapshots s (snapshots_of d url)) d.snapshots),
    persist_snapshot d disk url s,
    s,
  )

  abbrev pub captured : ℕ → List ℕ → List ℕ → List ℕ → List StructureElement → Attributes → Snapshot
  captured now url html text structure metadata = record {
    url = url;
    timestamp = now;
    html_hash = os.sha256 html;
    text_content = text;
    structure = structure;
    metadata = metadata;
  }

  -- `CaptureSnapshot` at the time `now`: the detector, the disk and the snapshot returned.
  unfoldable pub capture_snapshot :
      Detector
      → Disk
      → ℕ
      → List ℕ
      → List ℕ
      → List ℕ
      → List StructureElement
      → Attributes
      → Detector × Disk × Snapshot
  unfolding keep_snapshot snapshots_of
  capture_snapshot d disk now url html text structure metadata =
      let s = captured now url html text structure metadata in
      elim (snapshots_of d url) [
        | [] ↦ keep_snapshot d disk url s
        | newest ∷ l ↦
            if bytes_equal newest.html_hash s.html_hash
            then (d, disk, newest)
            else keep_snapshot d disk url s
      ]

  -- `CompareWithPrevious`; `none` is the panic on a URL with no snapshot.
  unfoldable pub compare_with_previous : Detector → Disk → ℕ → List ℕ → Option (DiffResult × Disk)
  unfolding generate_report
  compare_with_previous d disk now url = elim (snapshots_of d url) [
    | [] ↦ none
    | new ∷ [] ↦
        let same : DiffResult = record {
          url = url;
          old_snapshot = none;
          new_snapshot = some new;
          changes = [];
          timestamp = now;
        } in
        some (same, disk)
    | new ∷ old ∷ l ↦
        let same : DiffResult = record {
          url = url;
          old_snapshot = some old;
          new_snapshot = some new;
          changes = [];
          timestamp = now;
        } in
        let changes = diff_snapshots d old new in
        let result : DiffResult = record {
          url = url;
          old_snapshot = some old;
          new_snapshot = some new;
          changes = changes;
          timestamp = now;
        } in
        let reported = not (is_empty d.report_dir) && ltb 0 (length changes) in
        if bytes_equal new.html_hash old.html_hash
        then some (same, disk)
        else some (result, (if reported then generate_report d disk result else disk))
  ]

  -- The loop of `CompareAll`; `clock` is the time when a URL is compared.
  unfoldable pub compare_urls :
      Detector → Disk → (List ℕ → ℕ) → List (List ℕ) → Option (List (List ℕ × DiffResult) × Disk)
  unfolding compare_with_previous
  compare_urls d disk clock [] = some ([], disk)
  compare_urls d disk clock (url ∷ urls) = elim (compare_with_previous d disk (clock url) url) [
    | none ↦ none
    | some (result, disk') ↦ elim (compare_urls d disk' clock urls) [
      | none ↦ none
      | some (results, disk'') ↦
          some
            ((if ltb 0 (length result.changes) then insert url result results else results), disk'')
    ]
  ]

  -- `CompareAll`
  unfoldable pub compare_all :
      Detector → Disk → (List ℕ → ℕ) → Option (List (List ℕ × DiffResult) × Disk)
  unfolding compare_urls
  compare_all d disk clock = compare_urls d disk clock (get_all_urls d.snapshots)

  unfoldable pub remove_files : Detector → Disk → List ℕ → List Snapshot → Disk
  unfolding snapshot_path
  remove_files d disk url [] = disk
  remove_files d disk url (s ∷ l) =
      remove_files d (os.remove disk (snapshot_path d url s.timestamp)) url l

  -- The loop of `CleanupOldSnapshots`.
  unfoldable pub cleanup_entries :
      Detector → Disk → List (List ℕ × List Snapshot) → List (List ℕ × List Snapshot) × Disk
  unfolding remove_files
  cleanup_entries d disk [] = ([], disk)
  cleanup_entries d disk ((url, l) ∷ entries) =
      let over = ltb d.max_snapshots (length l) in
      let here = if over then remove_files d disk url (drop d.max_snapshots l) else disk in
      let (rest, disk') = cleanup_entries d here entries in
      ((url, (if over then take d.max_snapshots l else l)) ∷ rest, disk')

  -- `CleanupOldSnapshots`
  unfoldable pub cleanup_old_snapshots : Detector → Disk → Detector × Disk
  unfolding cleanup_entries
  cleanup_old_snapshots d disk =
      let (entries, disk') = cleanup_entries d disk d.snapshots in (with_snapshots d entries, disk')
