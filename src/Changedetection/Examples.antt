-- ===== src/Changedetection/Examples.antt =====
-- The change detector at concrete pages, and tests.
use omegacrawl.Base.{ℕ, ◌≡◌, refl, true, false, List, [], ◌∷◌, none, some}
use omegacrawl.Base.Int.{pos, negsuc}
use omegacrawl.Base.Bytes.{lookup}
use omegacrawl.Errors.Classify.{codes}
use omegacrawl.Errors.Contains.{bytes_equal, contains}
use omegacrawl.Localize.Dedup.{bytes_less}
use omegacrawl.Storage.Clean.{has_suffix}
use omegacrawl.Changedetection.{
  ChangeType, Change, StructureElement, Snapshot, DiffResult, Detector, DetectorConfig,
  new_detector, snapshots_of,
}
use omegacrawl.Changedetection.Diff.{diff_snapshots, should_ignore}
use omegacrawl.Changedetection.Diff.Order.{IsAscending, change_of}
use omegacrawl.Changedetection.Diff.Pointwise.{
  change_between, last_with, diff_snapshots-change_between,
}
use omegacrawl.Changedetection.Diff.Applied.{hash_at, hash_after, hash_after-diff_snapshots}
use omegacrawl.Changedetection.Capture.{Os, captured, capture_snapshot, compare_with_previous}
use omegacrawl.Changedetection.Load.{DirEntry, load_snapshots}
use omegacrawl.Changedetection.Capture.History.{
  IsValid, new_detector-IsValid, capture_snapshot-IsValid,
}
use omegacrawl.Changedetection.Capture.Compared.{
  page_changes, IsCaptured, capture_snapshot-IsCaptured, compare_with_previous-capture_snapshot,
}
use omegacrawl.Changedetection.Load.Stable.{sort_newest, sort_newest-IsSort}
use omegacrawl.Changedetection.Load.Newest.{snapshots_in, IsLoaded, snapshots_of-load_snapshots}

abbrev config : DetectorConfig
config = record {
  snapshot_dir = [];
  max_snapshots = negsuc 0;
  report_dir = codes "reports";
  enable_diff = true;
  ignore_selectors = codes ".ad" ∷ [];
  min_text_length = pos 0;
}

abbrev element : List ℕ → List ℕ → StructureElement
element selector hash = record {
  tag_name = codes "p";
  selector = selector;
  attributes = [];
  text_hash = hash;
  child_count = 0;
}

abbrev page : ℕ → List ℕ → List StructureElement → Snapshot
page at hash structure = record {
  url = codes "u";
  timestamp = at;
  html_hash = hash;
  text_content = [];
  structure = structure;
  metadata = [];
}

abbrev old_page : Snapshot
old_page =
    page 1 (codes "h1") (element (codes "#b") (codes "1") ∷ element (codes "#a") (codes "2") ∷ [])

abbrev new_page : Snapshot
new_page = page 2 (codes "h2") (
    element (codes "p.ad") (codes "5")
    ∷ element (codes "#c") (codes "3")
    ∷ element (codes "#b") (codes "4")
    ∷ [])

-- The disk is the list of the names written, the last one first.
abbrev os : Os (List (List ℕ))
os = record {
  sha256 = λ html. html;
  format = λ at. at ∷ [];
  write_snapshot = λ disk name s. name ∷ disk;
  write_report = λ disk name r. name ∷ disk;
  remove = λ disk name. disk;
}

abbrev detector : Detector
detector = new_detector config

-- An element removed, one added and one modified; the ignored one is passed over.
types : List Change → List (ChangeType × List ℕ)
types [] = []
types (c ∷ cs) = (c.change_type, c.selector) ∷ types cs

diff_test :
    types (diff_snapshots detector old_page new_page)
    ≡ (ChangeType.removed, codes "#a")
      ∷ (ChangeType.modified, codes "#b")
      ∷ (ChangeType.added, codes "#c")
      ∷ []
unfolding types diff_snapshots new_detector bytes_equal lookup should_ignore contains bytes_less
diff_test = refl

diff_snapshots-change_between_example :
    IsAscending (diff_snapshots detector old_page new_page)
    × (change_of (codes "#b") (diff_snapshots detector old_page new_page)
        ≡ change_between
            (codes ".ad" ∷ [])
            2
            (codes "#b")
            (last_with (codes "#b") old_page.structure)
            (last_with (codes "#b") new_page.structure))
unfolding new_detector
diff_snapshots-change_between_example =
    diff_snapshots-change_between detector old_page new_page (codes "#b")

hash_after-diff_snapshots_example :
    hash_after (diff_snapshots detector old_page new_page) (hash_at old_page) (codes "#a")
    ≡ hash_at new_page (codes "#a")
unfolding should_ignore new_detector contains
hash_after-diff_snapshots_example =
    hash_after-diff_snapshots detector old_page new_page (codes "#a") refl

-- One snapshot of the page, then another one.
abbrev first_capture : Detector × List (List ℕ) × Snapshot
first_capture =
    capture_snapshot os detector [] 7 (codes "u") (codes "<p>1") [] old_page.structure []

first-IsValid : IsValid first_capture.0
first-IsValid =
    capture_snapshot-IsValid os detector [] 7 (codes "u") (codes "<p>1") [] old_page.structure []
      (new_detector-IsValid config)

abbrev second_capture : Detector × List (List ℕ) × Snapshot
second_capture =
    capture_snapshot os first_capture.0 first_capture.1 8 (codes "u") (codes "<p>2") []
      new_page.structure []

capture_snapshot-IsValid_example : IsValid second_capture.0
capture_snapshot-IsValid_example =
    capture_snapshot-IsValid os first_capture.0 first_capture.1 8 (codes "u") (codes "<p>2") []
      new_page.structure [] first-IsValid

capture_snapshot-IsCaptured_example :
    IsCaptured os first_capture.0 (codes "u") (codes "<p>2") (codes "v") second_capture
capture_snapshot-IsCaptured_example =
    capture_snapshot-IsCaptured os first_capture.0 first_capture.1 8 (codes "u") (codes "<p>2") []
      new_page.structure [] (codes "v") first-IsValid

compare_with_previous-capture_snapshot_example :
    (r : DiffResult) × (disk' : List (List ℕ)) × (compare_with_previous os second_capture.0
        second_capture.1 9
        (codes "u")
      ≡ some (r, disk'))
    × (r.changes
        ≡ page_changes first_capture.0
            (captured os 8 (codes "u") (codes "<p>2") [] new_page.structure [])
            (snapshots_of first_capture.0 (codes "u")))
compare_with_previous-capture_snapshot_example =
    compare_with_previous-capture_snapshot os first_capture.0 first_capture.1 8 9 (codes "u")
      (codes "<p>2") [] new_page.structure [] first-IsValid

-- A URL with no snapshot makes the comparison panic.
panic_test : compare_with_previous os detector [] 9 (codes "u") ≡ none
unfolding compare_with_previous snapshots_of new_detector
panic_test = refl

-- Two files of one URL, the older one first, and a file that is no snapshot.
abbrev files : List DirEntry
files =
    record { is_dir = false; name = codes "a.json"; snapshot = some old_page }
    ∷ record { is_dir = false; name = codes "a.txt"; snapshot = some new_page }
    ∷ record { is_dir = false; name = codes "b.json"; snapshot = some new_page }
    ∷ []

snapshots_in_test : snapshots_in (codes "u") files ≡ old_page ∷ new_page ∷ []
unfolding snapshots_in bytes_equal has_suffix
snapshots_in_test = refl

snapshots_of-load_snapshots_example :
    (d' : Detector) × (load_snapshots sort_newest detector (some files) ≡ some d')
    × IsLoaded detector.max_snapshots
        (snapshots_of detector (codes "u"))
        (snapshots_in (codes "u") files)
        (snapshots_of d' (codes "u"))
snapshots_of-load_snapshots_example =
    snapshots_of-load_snapshots sort_newest sort_newest-IsSort detector files (codes "u")
