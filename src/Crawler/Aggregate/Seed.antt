-- ===== src/Crawler/Aggregate/Seed.antt =====
-- internal/crawler/do_crawl.go: which page's document the site aggregate holds.
use omegacrawl.Base.{
  ℕ, ◌≡◌, refl, ap, ◌∙◌, ◌⊎◌, inl, inr, true, false, List, [], ◌∷◌, ◌++◌, All, Option, none, some,
  arith,
}
use omegacrawl.Base.Bytes.{bytes_equal_refl}
use omegacrawl.Errors.Contains.{bytes_equal}
use omegacrawl.Crawler.Aggregate.{
  Written, Call, Aggregate, no_aggregate, write_file, may_write, claim, write_site_aggregate,
  write_all, Site, begins, writes, Reaches, stays, goes,
}

-- The call is for a page other than the seed page.
abbrev pub IsOther : Call → Type 0
IsOther c = c.is_seed ≡ false

abbrev pub IsSeedWrite : Call → Type 0
IsSeedWrite c = (c.is_seed ≡ true) × (c.outcome ≡ Written.wrote)

write_all-append :
    (a : Aggregate) (before after : List Call)
    → write_all a (before ++ after) ≡ write_all (write_all a before) after
unfolding write_all
write_all-append a [] after = refl
write_all-append a (c ∷ before) after = write_all-append (write_site_aggregate a c) before after

-- The call writes no file of the host once the flag is set: it is for another page, or another host.
abbrev pub Spares : List ℕ → Call → Type 0
Spares host c = (c.is_seed ≡ false) ⊎ (bytes_equal c.host host ≡ false)

-- The flag is set, and the host has the file.
abbrev IsKept : List ℕ → Option (List ℕ) → Aggregate → Type 0
IsKept host file a = (a.written ≡ true) × (a.files host ≡ file)

write_site_aggregate-IsKept :
    (host : List ℕ) (file : Option (List ℕ)) (a : Aggregate) (c : Call)
    → Spares host c
    → IsKept host file a
    → IsKept host file (write_site_aggregate a c)
unfolding write_site_aggregate may_write claim write_file
write_site_aggregate-IsKept host file a c (inl o) (w, k) =
    let same : write_site_aggregate a c ≡ a = rw (write_site_aggregate, may_write, o, w) refl in
    rw same (w, k)
write_site_aggregate-IsKept host file a c (inr n) (w, k) = ground arith

write_all-IsKept :
    (host : List ℕ) (file : Option (List ℕ)) (a : Aggregate) (cs : List Call)
    → All (Spares host) cs
    → IsKept host file a
    → IsKept host file (write_all a cs)
unfolding write_all
write_all-IsKept host file a [] h k = k
write_all-IsKept host file a (c ∷ cs) (s, h) k =
    write_all-IsKept host file (write_site_aggregate a c) cs h
      (write_site_aggregate-IsKept host file a c s k)

-- Of calls one after the other, the seed page wins: after a call for it that wrote, and then any calls
-- that are for other than seed pages or for other hosts, the aggregate of its host is the seed page's
-- document, whatever was called before.
pub write_all-SeedWrite :
    (a : Aggregate) (before after : List Call) (seed : Call)
    → IsSeedWrite seed
    → All (Spares seed.host) after
    → (write_all a (before ++ seed ∷ after)).files seed.host ≡ some seed.contents
unfolding write_all write_site_aggregate may_write claim write_file
write_all-SeedWrite a before after seed (s, o) h =
    let here = write_all a before in
    let kept : IsKept seed.host (some seed.contents) (write_site_aggregate here seed) =
      ground (arith, s, o, bytes_equal_refl seed.host) in
    ap (λ b. b.files seed.host) (write_all-append a before (seed ∷ after))
    ∙ (write_all-IsKept seed.host (some seed.contents) (write_site_aggregate here seed) after h
        kept).1

others_Spare : (host : List ℕ) (cs : List Call) → All IsOther cs → All (Spares host) cs
others_Spare host [] h = tt
others_Spare host (c ∷ cs) (o, h) = (inl o, others_Spare host cs h)

-- With no call for a seed page only the host of the first call can have an aggregate: the flag is one
-- for all hosts.
pub write_all-first :
    (first : Call) (rest : List Call) (host : List ℕ)
    → IsOther first
    → All IsOther rest
    → bytes_equal first.host host ≡ false
    → (write_all no_aggregate (first ∷ rest)).files host ≡ none
unfolding write_all write_site_aggregate may_write claim write_file
write_all-first first rest host o h n =
    let next = write_site_aggregate no_aggregate first in
    let kept : IsKept host none next = ground (arith, o, n) in
    (write_all-IsKept host none next rest (others_Spare host rest h) kept).1

-- Side by side, the seed page can lose: there is a run in which a call for another page of its host
-- passes its guard, the seed page's document is written, and then the other page's document is
-- written over it, with no call left to write.
pub seed_overwritten :
    (seed other : Call)
    → IsSeedWrite seed
    → IsOther other
    → other.outcome ≡ Written.wrote
    → other.host ≡ seed.host
    → (t : Site) × Reaches (record { aggregate = no_aggregate; writing = [] }) t
      × (t.writing ≡ [])
      × (t.aggregate.files seed.host ≡ some other.contents)
unfolding may_write claim write_file
seed_overwritten seed other (s, w) o v same =
    let claimed = claim no_aggregate other in
    let final = write_file (write_file (claim claimed seed) seed) other in
    let lost : final.files seed.host ≡ some other.contents =
      ground (arith, v, w, same, bytes_equal_refl seed.host) in
    (
      record { aggregate = final; writing = [] },
      goes (begins other (rw o refl) refl) (
          goes (begins seed (rw s refl) refl) (
            goes (writes [] (other ∷ []) seed refl refl)
              (goes (writes [] [] other refl refl) stays))),
      refl,
      lost,
    )
