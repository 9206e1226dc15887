-- ===== src/Changedetection.antt =====
-- internal/changedetection/detector.go: the data of the detector, and its construction. Texts are
-- their bytes, points in time are numbers.
use omegacrawl.Base.{ℕ, Bool, List, [], ◌∷◌, if◌then◌else◌, Option, none, some, length}
use omegacrawl.Base.Int.{ℤ, not_positive, pos_part}
use omegacrawl.Base.Bytes.{lookup}
use omegacrawl.Errors.Classify.{codes}
pub mod Diff
pub mod Capture
pub mod Load
mod Examples

pub data ChangeType : Type 0 where
  added : ChangeType
  removed : ChangeType
  modified : ChangeType

abbrev pub Attributes : Type 0
Attributes = List (List ℕ × List ℕ)

pub record Change : Type 0 where
  pub change_type : ChangeType
  pub selector : List ℕ
  pub old_value : List ℕ
  pub new_value : List ℕ
  pub attributes : Attributes
  pub timestamp : ℕ

pub record StructureElement : Type 0 where
  pub tag_name : List ℕ
  pub selector : List ℕ
  pub attributes : Attributes
  pub text_hash : List ℕ
  pub child_count : ℕ

pub record Snapshot : Type 0 where
  pub url : List ℕ
  pub timestamp : ℕ
  pub html_hash : List ℕ
  pub text_content : List ℕ
  pub structure : List StructureElement
  pub metadata : Attributes

-- The number of changes is the length of their list.
pub record DiffResult : Type 0 where
  pub url : List ℕ
  pub old_snapshot : Option Snapshot
  pub new_snapshot : Option Snapshot
  pub changes : List Change
  pub timestamp : ℕ

pub record DetectorConfig : Type 0 where
  pub snapshot_dir : List ℕ
  pub max_snapshots : ℤ
  pub report_dir : List ℕ
  pub enable_diff : Bool
  pub ignore_selectors : List (List ℕ)
  pub min_text_length : ℤ

-- The detector: its configuration with the defaults put in, and the snapshots of each URL, the newest
-- first.
pub record Detector : Type 0 where
  pub snapshot_dir : List ℕ
  pub max_snapshots : ℕ
  pub report_dir : List ℕ
  pub enable_diff : Bool
  pub ignore_selectors : List (List ℕ)
  pub min_text_length : ℕ
  pub snapshots : List (List ℕ × List Snapshot)

abbrev or_default : ℤ → ℕ → ℕ
or_default n fallback = if not_positive n then fallback else pos_part n

unfoldable pub new_detector : DetectorConfig → Detector
new_detector config = record {
  snapshot_dir = elim config.snapshot_dir [ [] ↦ codes "./snapshots" | c ∷ s ↦ c ∷ s ];
  max_snapshots = or_default config.max_snapshots 10;
  report_dir = config.report_dir;
  enable_diff = config.enable_diff;
  ignore_selectors = config.ignore_selectors;
  min_text_length = or_default config.min_text_length 10;
  snapshots = [];
}

-- `d.snapshots[url]`
unfoldable pub snapshots_of : Detector → List ℕ → List Snapshot
unfolding lookup
snapshots_of d url = elim (lookup url d.snapshots) [ none ↦ [] | some l ↦ l ]

-- `GetSnapshotCount`
unfoldable pub get_snapshot_count : Detector → List ℕ → ℕ
unfolding snapshots_of
get_snapshot_count d url = length (snapshots_of d url)

-- `GetAllURLs`
unfoldable pub get_all_urls : List (List ℕ × List Snapshot) → List (List ℕ)
get_all_urls [] = []
get_all_urls ((url, l) ∷ entries) = url ∷ get_all_urls entries
