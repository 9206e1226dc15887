-- ===== src/Crawler/Aggregate/Examples.antt =====
-- The site aggregate at concrete pages.
use omegacrawl.Base.{◌≡◌, refl, true, false, [], ◌∷◌, ◌++◌, some, inl}
use omegacrawl.Errors.Classify.{codes}
use omegacrawl.Crawler.Aggregate.{Written, Call, no_aggregate, write_all, Site, Reaches}
use omegacrawl.Crawler.Aggregate.Seed.{write_all-SeedWrite, seed_overwritten}

abbrev seed_call : Call
seed_call = record {
  is_seed = true;
  host = codes "h";
  contents = codes "seed";
  outcome = Written.wrote;
}

abbrev other_call : Call
other_call = record {
  is_seed = false;
  host = codes "h";
  contents = codes "other";
  outcome = Written.wrote;
}

write_all-SeedWrite_example :
    (write_all no_aggregate ((other_call ∷ []) ++ seed_call ∷ other_call ∷ [])).files (codes "h")
    ≡ some (codes "seed")
write_all-SeedWrite_example =
    write_all-SeedWrite no_aggregate (other_call ∷ []) (other_call ∷ []) seed_call (refl, refl)
      (inl refl, tt)

seed_overwritten_example :
    (t : Site) × Reaches (record { aggregate = no_aggregate; writing = [] }) t
    × (t.writing ≡ [])
    × (t.aggregate.files (codes "h") ≡ some (codes "other"))
seed_overwritten_example = seed_overwritten seed_call other_call (refl, refl) refl refl refl
