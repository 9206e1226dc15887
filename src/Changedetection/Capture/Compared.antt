-- ===== src/Changedetection/Capture/Compared.antt =====
-- internal/changedetection/detector.go: a capture, and the comparison after it, as the crawler makes
-- them of each page.
use omegacrawl.Base.{
  ℕ, zero, suc, ◌<◌, ◌≡◌, ◌≢◌, refl, ◌∙◌, inl, inr, Bool-cases, List, [], ◌∷◌, arith, if◌then◌else◌,
  ltb, length, take, some, sym, ap,
}
use omegacrawl.Base.Bytes.{lookup-insert, bytes_equal_refl}
use omegacrawl.Errors.Contains.{bytes_equal, bytes_equal_iff}
use omegacrawl.Changedetection.{
  Attributes, Change, StructureElement, Snapshot, DiffResult, Detector, snapshots_of,
}
use omegacrawl.Changedetection.Diff.{diff_snapshots}
use omegacrawl.Changedetection.Capture.{
  with_newest, with_snapshots, Os, captured, keep_snapshot, capture_snapshot, compare_with_previous,
}
use omegacrawl.Changedetection.Capture.History.{
  IsValid, snapshots_of-cases, capture_snapshot-IsValid,
}

with_newest_head :
    (max : ℕ) (s : Snapshot) (l : List Snapshot)
    → 0 < max
    → (rest : List Snapshot) × (with_newest max s l ≡ s ∷ rest)
unfolding with_newest
with_newest_head zero s l p = absurd (omega arith)
with_newest_head (suc max) s l p = elim (Bool-cases (ltb (suc max) (length (s ∷ l)))) [
  | inl t ↦ (take max l, rw (with_newest, t) refl)
  | inr t ↦ (l, rw (with_newest, t) refl)
]

-- The changes from the second newest snapshot to the newest one.
unfoldable pub newest_changes : Detector → List Snapshot → List Change
newest_changes d [] = []
newest_changes d (new ∷ []) = []
newest_changes d (new ∷ old ∷ l) = diff_snapshots d old new

-- The changes reported of a page, from the snapshot taken of it and those that there were.
unfoldable pub page_changes : Detector → Snapshot → List Snapshot → List Change
page_changes d new [] = []
page_changes d new (old ∷ l) =
    if bytes_equal old.html_hash new.html_hash
    then newest_changes d (old ∷ l)
    else if ltb 1 d.max_snapshots
    then diff_snapshots d old new
    else []

newest_changes-with_newest :
    (d : Detector) (max : ℕ) (new old : Snapshot) (l : List Snapshot)
    → 0 < max
    → newest_changes d (with_newest max new (old ∷ l))
      ≡ (if ltb 1 max then diff_snapshots d old new else [])
unfolding with_newest newest_changes
newest_changes-with_newest d zero new old l p = absurd (omega arith)
newest_changes-with_newest d (suc zero) new old l p = ground arith
newest_changes-with_newest d (suc (suc max)) new old l p =
    elim (Bool-cases (ltb (suc (suc max)) (length (new ∷ old ∷ l)))) [
      | inl t ↦ rw (with_newest, t) (ground arith)
      | inr t ↦ rw (with_newest, t) (ground arith)
    ]

with_newest_first :
    (d : Detector) (s : Snapshot)
    → 0 < d.max_snapshots
    → newest_changes d (with_newest d.max_snapshots s []) ≡ []
unfolding with_newest newest_changes
with_newest_first d s p = ground arith

newest_changes-with_snapshots :
    (d : Detector) (entries : List (List ℕ × List Snapshot)) (l : List Snapshot)
    → newest_changes (with_snapshots d entries) l ≡ newest_changes d l
unfolding newest_changes diff_snapshots
newest_changes-with_snapshots d entries [] = refl
newest_changes-with_snapshots d entries (s ∷ []) = refl
newest_changes-with_snapshots d entries (s ∷ t ∷ l) = refl

module _ {Disk : Type 0} (os : Os Disk) where
  snapshots_of-keep_snapshot :
      (d : Detector) (disk : Disk) (url other : List ℕ) (s : Snapshot)
      → snapshots_of (keep_snapshot os d disk url s).0 other ≡ (
          if bytes_equal url other
          then with_newest d.max_snapshots s (snapshots_of d url)
          else snapshots_of d other)
  unfolding keep_snapshot snapshots_of
  snapshots_of-keep_snapshot d disk url other s =
      let kept = with_newest d.max_snapshots s (snapshots_of d url) in
      rw (snapshots_of, lookup-insert url other kept d.snapshots)
        (elim (Bool-cases (bytes_equal url other)) [ inl t ↦ rw t refl | inr t ↦ rw t refl ])

  -- The snapshot has the document's hash, it is the newest one of its URL, and those of another URL are
  -- as they were.
  abbrev pub IsCaptured : Detector → List ℕ → List ℕ → List ℕ → Detector × Disk × Snapshot → Type 0
  IsCaptured d url html other r =
      (r.2.html_hash ≡ os.sha256 html)
      × ((rest : List Snapshot) × (snapshots_of r.0 url ≡ r.2 ∷ rest))
      × (snapshots_of r.0 other
          ≡ (if bytes_equal url other then snapshots_of r.0 url else snapshots_of d other))

  keep_snapshot-IsCaptured :
      (d : Detector) (disk : Disk) (url html other : List ℕ) (s : Snapshot)
      → IsValid d
      → s.html_hash ≡ os.sha256 html
      → IsCaptured d url html other (keep_snapshot os d disk url s)
  unfolding keep_snapshot
  keep_snapshot-IsCaptured d disk url html other s v e =
      let (rest, p) = with_newest_head d.max_snapshots s (snapshots_of d url) v.positive in
      let here = snapshots_of-keep_snapshot d disk url url s ∙ rw (bytes_equal_refl url) refl in
      (e, (rest, here ∙ p), snapshots_of-keep_snapshot d disk url other s ∙ rw here refl)

  -- In a valid detector, the snapshot that a capture returns has the hash of the document and is the
  -- newest one of its URL, and the snapshots of another URL stay as they are.
  pub capture_snapshot-IsCaptured :
      (d : Detector) (disk : Disk) (now : ℕ) (url html text : List ℕ)
      → (structure : List StructureElement) (metadata : Attributes) (other : List ℕ) → IsValid d
      → IsCaptured d url html other
          (capture_snapshot os d disk now url html text structure metadata)
  unfolding capture_snapshot
  capture_snapshot-IsCaptured d disk now url html text structure metadata other v =
      let s = captured os now url html text structure metadata in
      let kept = keep_snapshot-IsCaptured d disk url html other s v refl in
      elim (snapshots_of-cases d url v) [
        | inl e ↦ rw (capture_snapshot, e) kept
        | inr (t, l, e, h) ↦ elim (Bool-cases (bytes_equal t.html_hash s.html_hash)) [
          | inl k ↦
              let same : IsCaptured d url html other (d, disk, t) = (
                (bytes_equal_iff t.html_hash s.html_hash).0 k,
                (l, e),
                ground (arith, bytes_equal_iff url other),
              ) in
              rw (capture_snapshot, e, k) same
          | inr k ↦ rw (capture_snapshot, e, k) kept
        ]
      ]

  newest_changes-keep_snapshot :
      (d : Detector) (disk : Disk) (url : List ℕ) (s : Snapshot)
      → newest_changes
          (keep_snapshot os d disk url s).0
          (snapshots_of (keep_snapshot os d disk url s).0 url)
        ≡ newest_changes d (with_newest d.max_snapshots s (snapshots_of d url))
  unfolding keep_snapshot
  newest_changes-keep_snapshot d disk url s =
      let here = snapshots_of-keep_snapshot d disk url url s ∙ rw (bytes_equal_refl url) refl in
      ap (newest_changes (keep_snapshot os d disk url s).0) here
      ∙ newest_changes-with_snapshots d _ (with_newest d.max_snapshots s (snapshots_of d url))

  newest_changes-capture_snapshot :
      (d : Detector) (disk : Disk) (now : ℕ) (url html text : List ℕ)
      → (structure : List StructureElement) (metadata : Attributes) → IsValid d
      → newest_changes
          (capture_snapshot os d disk now url html text structure metadata).0
          (snapshots_of (capture_snapshot os d disk now url html text structure metadata).0 url)
        ≡ page_changes d (captured os now url html text structure metadata) (snapshots_of d url)
  unfolding capture_snapshot page_changes
  newest_changes-capture_snapshot d disk now url html text structure metadata v =
      let s = captured os now url html text structure metadata in
      let kept = newest_changes-keep_snapshot d disk url s in
      elim (snapshots_of-cases d url v) [
        | inl e ↦
            let one = with_newest_first d s v.positive in
            let all = kept ∙ ap (λ l. newest_changes d (with_newest d.max_snapshots s l)) e ∙ one in
            rw (capture_snapshot, page_changes, e) all
        | inr (t, l, e, h) ↦
            let two =
              kept
              ∙ ap (λ k. newest_changes d (with_newest d.max_snapshots s k)) e
              ∙ newest_changes-with_newest d d.max_snapshots s t l v.positive in
            elim (Bool-cases (bytes_equal t.html_hash s.html_hash)) [
              | inl k ↦ rw (capture_snapshot, page_changes, e, k) (ap (newest_changes d) e)
              | inr k ↦ rw (capture_snapshot, page_changes, e, k) two
            ]
      ]

  compare_with_previous-newest_changes :
      (d : Detector) (disk : Disk) (now : ℕ) (url : List ℕ)
      → IsValid d
      → snapshots_of d url ≢ []
      → (r : DiffResult) × (disk' : Disk) × (compare_with_previous os d disk now url
          ≡ some (r, disk'))
        × (r.changes ≡ newest_changes d (snapshots_of d url))
  unfolding compare_with_previous newest_changes
  compare_with_previous-newest_changes d disk now url v n = elim (snapshots_of-cases d url v) [
    | inl e ↦ absurd (n e)
    | inr (t, [], e, h) ↦ rw (compare_with_previous, e) (_, _, refl, refl)
    | inr (t, u ∷ l, e, h) ↦ rw (compare_with_previous, e, h.2.0) (_, _, refl, refl)
  ]

  -- A capture of a page and the comparison after it, in a valid detector: the comparison never panics,
  -- and its changes are, of a page met for the first time, none; of a changed page, those from the
  -- snapshot that was the newest to this one, unless only one snapshot is kept, and then none; of an
  -- unchanged page, those that its two newest snapshots showed before.
  pub compare_with_previous-capture_snapshot :
      (d : Detector) (disk : Disk) (now later : ℕ) (url html text : List ℕ)
      → (structure : List StructureElement) (metadata : Attributes) → IsValid d
      → (r : DiffResult) × (disk' : Disk) × (compare_with_previous os
            (capture_snapshot os d disk now url html text structure metadata).0
            (capture_snapshot os d disk now url html text structure metadata).1
            later
            url
          ≡ some (r, disk'))
        × (r.changes
            ≡ page_changes d
                (captured os now url html text structure metadata)
                (snapshots_of d url))
  compare_with_previous-capture_snapshot d disk now later url html text structure metadata v =
      let c = capture_snapshot os d disk now url html text structure metadata in
      let (kept, (rest, e), _) =
        capture_snapshot-IsCaptured d disk now url html text structure metadata url v in
      let (r, disk', p, q) =
        compare_with_previous-newest_changes c.0 c.1 later url
          (capture_snapshot-IsValid os d disk now url html text structure metadata v)
          (λ z. absurd (omega (arith, ap length (sym e ∙ z)))) in
      (
        r,
        disk',
        p,
        q ∙ newest_changes-capture_snapshot d disk now url html text structure metadata v,
      )
