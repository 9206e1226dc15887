-- ===== src/Changedetection/Capture/History.antt =====
-- internal/changedetection/detector.go: what the detector keeps of each URL.
use mathlib.Core.Path.{subst}
use omegacrawl.Base.{
  ℕ, zero, suc, ◌<◌, ◌≤◌, ◌≡◌, refl, inl, inr, ◌⊎◌, Bool-cases, Option-cases, false, List, [], ◌∷◌,
  All, arith, ltb, length, take, some,
}
use omegacrawl.Base.Bytes.{lookup, insert}
use omegacrawl.Errors.Contains.{bytes_equal, bytes_equal_iff}
use omegacrawl.Changedetection.{
  Attributes, StructureElement, Snapshot, Detector, DetectorConfig, new_detector, snapshots_of,
}
use omegacrawl.Changedetection.Capture.{
  with_newest, Os, captured, keep_snapshot, capture_snapshot, cleanup_entries,
  cleanup_old_snapshots,
}

-- A snapshot and the next older one of the list have different documents.
abbrev pub IsChanging : List Snapshot → Type 0
IsChanging [] = Unit
IsChanging (s ∷ []) = Unit
IsChanging (s ∷ t ∷ l) = (bytes_equal s.html_hash t.html_hash ≡ false) × IsChanging (t ∷ l)

-- The snapshots of one URL: at least one, at most `max`, and no two next to each other the same.
abbrev pub IsHistory : ℕ → List Snapshot → Type 0
IsHistory max l = (0 < length l) × (length l ≤ max) × IsChanging l

abbrev pub HoldsHistory : ℕ → List ℕ × List Snapshot → Type 0
HoldsHistory max (url, l) = IsHistory max l

pub record IsValid (d : Detector) : Type 0 where
  pub positive : 0 < d.max_snapshots
  pub histories : All (HoldsHistory d.max_snapshots) d.snapshots

All-insert :
    (max : ℕ) (url : List ℕ) (l : List Snapshot) (entries : List (List ℕ × List Snapshot))
    → IsHistory max l
    → All (HoldsHistory max) entries
    → All (HoldsHistory max) (insert url l entries)
unfolding insert
All-insert max url l [] h a = (h, tt)
All-insert max url l ((other, old) ∷ entries) h (k, a) = elim (Bool-cases (bytes_equal other url)) [
  | inl t ↦ rw (insert, t) (h, a)
  | inr t ↦ rw (insert, t) (k, All-insert max url l entries h a)
]

pub lookup-IsHistory :
    (max : ℕ) (url : List ℕ) (l : List Snapshot) (entries : List (List ℕ × List Snapshot))
    → All (HoldsHistory max) entries
    → lookup url entries ≡ some l
    → IsHistory max l
unfolding lookup
lookup-IsHistory max url l [] a p = cc
lookup-IsHistory max url l ((other, old) ∷ entries) (k, a) p =
    elim (Bool-cases (bytes_equal other url)) [
      | inl t ↦ let e : old ≡ l = ground arith in subst (IsHistory max) e k
      | inr t ↦ lookup-IsHistory max url l entries a (ground arith)
    ]

take-IsChanging : (n : ℕ) (l : List Snapshot) → IsChanging l → IsChanging (take n l)
take-IsChanging zero l c = tt
take-IsChanging (suc n) [] c = tt
take-IsChanging (suc zero) (s ∷ []) c = tt
take-IsChanging (suc (suc n)) (s ∷ []) c = tt
take-IsChanging (suc zero) (s ∷ t ∷ l) (d, c) = tt
take-IsChanging (suc (suc n)) (s ∷ t ∷ l) (d, c) = (d, take-IsChanging (suc n) (t ∷ l) c)

pub length-take : (n : ℕ) (l : List Snapshot) → length (take n l) ≤ n
length-take zero l = omega arith
length-take (suc n) [] = omega arith
length-take (suc n) (s ∷ l) = omega (arith, length-take n l)

with_newest-IsHistory :
    (max : ℕ) (s : Snapshot) (l : List Snapshot)
    → 0 < max
    → IsChanging (s ∷ l)
    → IsHistory max (with_newest max s l)
unfolding with_newest
with_newest-IsHistory zero s l p c = absurd (omega arith)
with_newest-IsHistory (suc max) s l p c = elim (Bool-cases (ltb (suc max) (length (s ∷ l)))) [
  | inl t ↦
      rw (with_newest, t)
        (omega arith, length-take (suc max) (s ∷ l), take-IsChanging (suc max) (s ∷ l) c)
  | inr t ↦ rw (with_newest, t) (omega arith, ground arith, c)
]

-- The snapshots of a URL in a valid detector: none, or a history.
pub snapshots_of-cases :
    (d : Detector) (url : List ℕ)
    → IsValid d
    → (snapshots_of d url ≡ [])
      ⊎ ((t : Snapshot) × (l : List Snapshot) × (snapshots_of d url ≡ t ∷ l)
          × IsHistory d.max_snapshots (t ∷ l))
unfolding snapshots_of
snapshots_of-cases d url v = elim (Option-cases (lookup url d.snapshots)) [
  | inl e ↦ inl (rw (snapshots_of, e) refl)
  | inr ([], e) ↦ inl (rw (snapshots_of, e) refl)
  | inr (t ∷ l, e) ↦ inr (
    t,
    l,
    rw (snapshots_of, e) refl,
    lookup-IsHistory d.max_snapshots url (t ∷ l) d.snapshots v.histories e,
  )
]

module _ {Disk : Type 0} (os : Os Disk) where
  keep_snapshot-IsValid :
      (d : Detector) (disk : Disk) (url : List ℕ) (s : Snapshot)
      → IsValid d
      → IsChanging (s ∷ snapshots_of d url)
      → IsValid (keep_snapshot os d disk url s).0
  unfolding keep_snapshot
  keep_snapshot-IsValid d disk url s v c = record {
    positive = v.positive;
    histories =
        All-insert d.max_snapshots url (with_newest d.max_snapshots s (snapshots_of d url))
          d.snapshots (with_newest-IsHistory d.max_snapshots s (snapshots_of d url) v.positive c)
          v.histories;
  }

  -- Capturing a snapshot keeps the detector valid: for each URL it has at least one and at most the
  -- maximum of snapshots, none with the same hash as the next older one.
  pub capture_snapshot-IsValid :
      (d : Detector) (disk : Disk) (now : ℕ) (url html text : List ℕ)
      → (structure : List StructureElement) (metadata : Attributes) → IsValid d
      → IsValid (capture_snapshot os d disk now url html text structure metadata).0
  unfolding capture_snapshot
  capture_snapshot-IsValid d disk now url html text structure metadata v =
      let s = captured os now url html text structure metadata in
      elim (snapshots_of-cases d url v) [
        | inl e ↦
            let c : IsChanging (s ∷ snapshots_of d url) = rw e tt in
            rw (capture_snapshot, e) (keep_snapshot-IsValid d disk url s v c)
        | inr (t, l, e, h) ↦ elim (Bool-cases (bytes_equal t.html_hash s.html_hash)) [
          | inl k ↦ rw (capture_snapshot, e, k) v
          | inr k ↦
              let n : bytes_equal s.html_hash t.html_hash ≡ false = ground (
                arith,
                bytes_equal_iff s.html_hash t.html_hash,
                bytes_equal_iff t.html_hash s.html_hash,
              ) in
              let c : IsChanging (s ∷ snapshots_of d url) = rw e (n, h.2) in
              rw (capture_snapshot, e, k) (keep_snapshot-IsValid d disk url s v c)
        ]
      ]

  cleanup_entries_lem :
      (d : Detector) (disk : Disk) (entries : List (List ℕ × List Snapshot))
      → All (HoldsHistory d.max_snapshots) entries
      → cleanup_entries os d disk entries ≡ (entries, disk)
  unfolding cleanup_entries
  cleanup_entries_lem d disk [] a = refl
  cleanup_entries_lem d disk ((url, l) ∷ entries) ((p, h, c), a) =
      let e : ltb d.max_snapshots (length l) ≡ false = ground arith in
      rw (cleanup_entries, e, cleanup_entries_lem d disk entries a) refl

  -- The removal of old snapshots changes nothing: in a valid detector every list of snapshots is already
  -- within the maximum, so that no file is removed, whatever the disk holds.
  pub cleanup_old_snapshots_lem :
      (d : Detector) (disk : Disk) → IsValid d → cleanup_old_snapshots os d disk ≡ (d, disk)
  unfolding cleanup_old_snapshots
  cleanup_old_snapshots_lem d disk v =
      rw (cleanup_old_snapshots, cleanup_entries_lem d disk d.snapshots v.histories) refl

pub new_detector-IsValid : (config : DetectorConfig) → IsValid (new_detector config)
unfolding new_detector
new_detector-IsValid config = record { positive = ground arith; histories = tt }
