-- ===== src/Changedetection/Load/Newest.antt =====
-- internal/changedetection/detector.go: `LoadSnapshots`.
use mathlib.Core.Path.{subst}
use mathlib.Core.List.{Permᴰ, append_assoc, append-nil}
use omegacrawl.Base.{
  ℕ, zero, suc, ◌≤◌, ◌≡◌, refl, sym, ap, ◌∙◌, inl, inr, Bool-cases, Option-cases, List, [], ◌∷◌,
  ◌++◌, arith, if◌then◌else◌, ltb, length, take, drop, not, ◌&&◌, Option, none, some,
}
use omegacrawl.Base.Bytes.{lookup, insert, lookup-insert, insert-IsDistinct, IsDistinct}
use omegacrawl.Errors.Classify.{codes}
use omegacrawl.Storage.Clean.{has_suffix}
use omegacrawl.Errors.Contains.{bytes_equal, bytes_equal_iff}
use omegacrawl.Changedetection.{Snapshot, Detector, snapshots_of}
use omegacrawl.Changedetection.Capture.{with_snapshots}
use omegacrawl.Changedetection.Load.{
  DirEntry, read_snapshot, add_snapshot, group_snapshots, trimmed, load_groups, load_snapshots,
  IsNewestFirst, IsSort,
}

-- The snapshots of the URL in the files that are no directory and have the suffix `.json`, in their order.
unfoldable pub snapshots_in : List ℕ → List DirEntry → List Snapshot
snapshots_in url [] = []
snapshots_in url (f ∷ files) =
    let rest = snapshots_in url files in
    elim f.snapshot [
      | none ↦ rest
      | some s ↦
          if not f.is_dir && (has_suffix f.name (codes ".json") && bytes_equal s.url url)
          then s ∷ rest
          else rest
    ]

snapshots_in-skip :
    (url : List ℕ) (f : DirEntry) (files : List DirEntry)
    → read_snapshot f ≡ none
    → snapshots_in url (f ∷ files) ≡ snapshots_in url files
unfolding snapshots_in read_snapshot
snapshots_in-skip url f files e = ground arith

snapshots_in-take :
    (url : List ℕ) (f : DirEntry) (files : List DirEntry) (s : Snapshot)
    → read_snapshot f ≡ some s
    → snapshots_in url (f ∷ files)
      ≡ (if bytes_equal s.url url then s ∷ snapshots_in url files else snapshots_in url files)
unfolding snapshots_in read_snapshot
snapshots_in-take url f files s e = ground arith

-- A list of snapshots, after the one that a map may have.
onto : Option (List Snapshot) → List Snapshot → Option (List Snapshot)
onto o [] = o
onto none (s ∷ l) = some (s ∷ l)
onto (some k) (s ∷ l) = some (k ++ s ∷ l)

onto-cons :
    (o : Option (List Snapshot)) (s : Snapshot) (l : List Snapshot)
    → onto o (s ∷ l) ≡ onto (some ((elim o [ none ↦ [] | some k ↦ k ]) ++ s ∷ [])) l
unfolding onto
onto-cons none s [] = refl
onto-cons none s (t ∷ l) = refl
onto-cons (some k) s [] = refl
onto-cons (some k) s (t ∷ l) = ap some (sym (append_assoc k (s ∷ []) (t ∷ l)))

lookup-added :
    (url : List ℕ) (groups : List (List ℕ × List Snapshot)) (s : Snapshot) (l : List Snapshot)
    → onto (lookup url (add_snapshot groups s)) l
      ≡ onto (lookup url groups) (if bytes_equal s.url url then s ∷ l else l)
unfolding add_snapshot
lookup-added url groups s l =
    let old : List Snapshot = elim (lookup s.url groups) [ none ↦ [] | some l ↦ l ] in
    let here = lookup-insert s.url url (old ++ s ∷ []) groups in
    elim (Bool-cases (bytes_equal s.url url)) [
      | inl t ↦
          let same : s.url ≡ url = (bytes_equal_iff s.url url).0 t in
          ground (arith, here, onto-cons (lookup s.url groups) s l, same)
      | inr t ↦ ground (arith, here)
    ]

lookup-group_snapshots :
    (url : List ℕ) (groups : List (List ℕ × List Snapshot)) (files : List DirEntry)
    → lookup url (group_snapshots groups files) ≡ onto (lookup url groups) (snapshots_in url files)
unfolding group_snapshots onto snapshots_in
lookup-group_snapshots url groups [] = refl
lookup-group_snapshots url groups (f ∷ files) = elim (Option-cases (read_snapshot f)) [
  | inl e ↦
      rw (group_snapshots, snapshots_in-skip url f files e, e)
        (lookup-group_snapshots url groups files)
  | inr (s, e) ↦
      rw (group_snapshots, snapshots_in-take url f files s e, e)
        (lookup-group_snapshots url (add_snapshot groups s) files
          ∙ lookup-added url groups s (snapshots_in url files))
]

group_snapshots-IsDistinct :
    (groups : List (List ℕ × List Snapshot)) (files : List DirEntry)
    → IsDistinct groups
    → IsDistinct (group_snapshots groups files)
unfolding group_snapshots add_snapshot
group_snapshots-IsDistinct groups [] d = d
group_snapshots-IsDistinct groups (f ∷ files) d = elim (Option-cases (read_snapshot f)) [
  | inl e ↦ rw (group_snapshots, e) (group_snapshots-IsDistinct groups files d)
  | inr (s, e) ↦
      rw (group_snapshots, e)
        (group_snapshots-IsDistinct (add_snapshot groups s) files
          (insert-IsDistinct s.url _ groups d))
]

take-drop : (n : ℕ) (l : List Snapshot) → take n l ++ drop n l ≡ l
take-drop zero l = refl
take-drop (suc n) [] = refl
take-drop (suc n) (s ∷ l) = ap (λ t. s ∷ t) (take-drop n l)

take-all : (n : ℕ) (l : List Snapshot) → n ≤ length l → length (take n l) ≡ n
take-all zero l h = refl
take-all (suc n) [] h = absurd (omega arith)
take-all (suc n) (s ∷ l) h = ap suc (take-all n l (omega arith))

-- What a URL has after the load, where it had `kept` and the files have `found`: the newest ones of
-- these, as many as the maximum allows, the newest first, or what it had where there are none.
abbrev pub IsLoaded : ℕ → List Snapshot → List Snapshot → List Snapshot → Type 0
IsLoaded max kept [] l = l ≡ kept
IsLoaded max kept (s ∷ found) l =
    (length l ≡ (if ltb max (length (s ∷ found)) then max else length (s ∷ found)))
    × (older : List Snapshot) × Permᴰ (s ∷ found) (l ++ older)
    × IsNewestFirst (l ++ older)

length-Perm : {k l : List Snapshot} → Permᴰ k l → length k ≡ length l
length-Perm Permᴰ.nil = refl
length-Perm (Permᴰ.cons e p) = ap suc (length-Perm p)
length-Perm (Permᴰ.swap e f) = refl
length-Perm (Permᴰ.trans p q) = length-Perm p ∙ length-Perm q

module _ (sort : List Snapshot → List Snapshot) (laws : IsSort sort) where
  lookup-load_groups :
      (max : ℕ) (url : List ℕ) (groups loaded : List (List ℕ × List Snapshot))
      → IsDistinct groups
      → lookup url (load_groups sort max groups loaded) ≡ (elim (lookup url groups) [
        | none ↦ lookup url loaded
        | some l ↦ some (trimmed max (sort l))
      ])
  unfolding load_groups lookup
  lookup-load_groups max url [] loaded d = refl
  lookup-load_groups max url ((key, l) ∷ groups) loaded (f, d) = ground (
    arith,
    lookup-load_groups max url groups (insert key (trimmed max (sort l)) loaded) d,
    lookup-insert key url (trimmed max (sort l)) loaded,
    bytes_equal_iff key url,
  )

  trimmed-IsLoaded :
      (max : ℕ) (kept : List Snapshot) (s : Snapshot) (found : List Snapshot)
      → IsLoaded max kept (s ∷ found) (trimmed max (sort (s ∷ found)))
  unfolding trimmed
  trimmed-IsLoaded max kept s found =
      let l = s ∷ found in
      let n : length l ≡ length (sort l) = length-Perm (laws.same l) in
      elim (Bool-cases (ltb max (length (sort l)))) [
        | inl t ↦
            let here = take-drop max (sort l) in
            rw (trimmed, t)
              (
                (rw n (rw t (take-all max (sort l) (ground arith)))),
                drop max (sort l),
                (subst (Permᴰ l) (sym here) (laws.same l)),
                (subst IsNewestFirst (sym here) (laws.ordered l)),
              )
        | inr t ↦
            let here = append-nil (sort l) in
            rw (trimmed, t)
              (
                (rw n (rw t refl)),
                [],
                (subst (Permᴰ l) (sym here) (laws.same l)),
                (subst IsNewestFirst (sym here) (laws.ordered l)),
              )
      ]

  list_after_load :
      (max : ℕ) (o : Option (List Snapshot)) (l : List Snapshot)
      → IsLoaded max
          (elim o [ none ↦ [] | some k ↦ k ])
          l
          (elim (elim (onto none l) as (λ (_ : Option (List Snapshot)). Option (List Snapshot)) [
            | none ↦ o
            | some k ↦ some (trimmed max (sort k))
          ]) [ none ↦ [] | some k ↦ k ])
  unfolding onto
  list_after_load max o [] = refl
  list_after_load max o (s ∷ l) = trimmed-IsLoaded max (elim o [ none ↦ [] | some k ↦ k ]) s l

  -- With any sort that does what is promised, after a load of the files of the snapshot directory a URL
  -- has the newest of its snapshots on the disk, as many as the maximum allows, the newest first, and no
  -- others; a URL with none there keeps those it had.
  pub snapshots_of-load_snapshots :
      (d : Detector) (files : List DirEntry) (url : List ℕ)
      → (d' : Detector) × (load_snapshots sort d (some files) ≡ some d')
        × IsLoaded d.max_snapshots
            (snapshots_of d url)
            (snapshots_in url files)
            (snapshots_of d' url)
  unfolding load_snapshots snapshots_of lookup
  snapshots_of-load_snapshots d files url =
      let groups = group_snapshots [] files in
      let at : lookup url groups ≡ onto none (snapshots_in url files) =
        lookup-group_snapshots url [] files in
      let e =
        lookup-load_groups d.max_snapshots url groups d.snapshots
          (group_snapshots-IsDistinct [] files tt) in
      let d' = with_snapshots d (load_groups sort d.max_snapshots groups d.snapshots) in
      let here : IsLoaded d.max_snapshots (snapshots_of d url) (snapshots_in url files)
          (snapshots_of d' url) =
        rw (snapshots_of, e, at)
          (list_after_load d.max_snapshots (lookup url d.snapshots) (snapshots_in url files)) in
      (d', refl, here)
