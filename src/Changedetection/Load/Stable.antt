-- ===== src/Changedetection/Load/Stable.antt =====
-- internal/changedetection/detector.go: a sort that keeps what `sort.Slice` promises.
use mathlib.Core.List.{Permᴰ}
use mathlib.Core.List.Permᴰ as PermLaws
use omegacrawl.Base.{◌≤◌, refl, inl, inr, Bool-cases, List, [], ◌∷◌, arith, if◌then◌else◌, leb}
use omegacrawl.Changedetection.{Snapshot}
use omegacrawl.Changedetection.Load.{IsNewest, IsNewestFirst, IsSort}

unfoldable pub insert_newest : Snapshot → List Snapshot → List Snapshot
insert_newest s [] = s ∷ []
insert_newest s (t ∷ l) =
    let rest = insert_newest s l in if leb t.timestamp s.timestamp then s ∷ t ∷ l else t ∷ rest

unfoldable pub sort_newest : List Snapshot → List Snapshot
unfolding insert_newest
sort_newest [] = []
sort_newest (s ∷ l) = insert_newest s (sort_newest l)

IsNewest-trans :
    (s t : Snapshot) (l : List Snapshot) → t.timestamp ≤ s.timestamp → IsNewest t l → IsNewest s l
IsNewest-trans s t [] p h = tt
IsNewest-trans s t (u ∷ l) p (q, h) = (omega arith, IsNewest-trans s t l p h)

IsNewest-insert_newest :
    (t s : Snapshot) (l : List Snapshot)
    → s.timestamp ≤ t.timestamp
    → IsNewest t l
    → IsNewest t (insert_newest s l)
unfolding insert_newest
IsNewest-insert_newest t s [] p h = (p, tt)
IsNewest-insert_newest t s (u ∷ l) p (q, h) = ground (arith, IsNewest-insert_newest t s l p h)

insert_newest-IsNewestFirst :
    (s : Snapshot) (l : List Snapshot) → IsNewestFirst l → IsNewestFirst (insert_newest s l)
unfolding insert_newest
insert_newest-IsNewestFirst s [] h = (tt, tt)
insert_newest-IsNewestFirst s (t ∷ l) (n, h) = elim (Bool-cases (leb t.timestamp s.timestamp)) [
  | inl e ↦
      let p : t.timestamp ≤ s.timestamp = ground arith in
      rw (insert_newest, e) ((p, IsNewest-trans s t l p n), (n, h))
  | inr e ↦
      let p : s.timestamp ≤ t.timestamp = ground arith in
      rw (insert_newest, e) (IsNewest-insert_newest t s l p n, insert_newest-IsNewestFirst s l h)
]

sort_newest-IsNewestFirst : (l : List Snapshot) → IsNewestFirst (sort_newest l)
unfolding sort_newest
sort_newest-IsNewestFirst [] = tt
sort_newest-IsNewestFirst (s ∷ l) =
    insert_newest-IsNewestFirst s (sort_newest l) (sort_newest-IsNewestFirst l)

insert_newest-Perm : (s : Snapshot) (l : List Snapshot) → Permᴰ (s ∷ l) (insert_newest s l)
unfolding insert_newest
insert_newest-Perm s [] = PermLaws.refl (s ∷ [])
insert_newest-Perm s (t ∷ l) = elim (Bool-cases (leb t.timestamp s.timestamp)) [
  | inl e ↦ rw (insert_newest, e) (PermLaws.refl (s ∷ t ∷ l))
  | inr e ↦
      rw (insert_newest, e)
        (Permᴰ.trans (Permᴰ.swap refl refl) (Permᴰ.cons refl (insert_newest-Perm s l)))
]

sort_newest-Perm : (l : List Snapshot) → Permᴰ l (sort_newest l)
unfolding sort_newest
sort_newest-Perm [] = Permᴰ.nil
sort_newest-Perm (s ∷ l) =
    Permᴰ.trans (Permᴰ.cons refl (sort_newest-Perm l)) (insert_newest-Perm s (sort_newest l))

pub sort_newest-IsSort : IsSort sort_newest
sort_newest-IsSort = record { same = sort_newest-Perm; ordered = sort_newest-IsNewestFirst }
