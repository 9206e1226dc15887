-- ===== src/Storage/Incremental/Examples.antt =====
-- The cache of validation data at concrete files, and tests.
use omegacrawl.Base.{ℕ, ◌≡◌, refl, true, false, List, [], ◌∷◌, Option, none, some, arith}
use omegacrawl.Base.Bytes.{lookup}
use omegacrawl.Errors.Classify.{codes}
use omegacrawl.Errors.Contains.{bytes_equal}
use omegacrawl.Storage.Incremental.{
  CacheFile, ResourceCache, contents, new_resource_cache, update_from_response, conditional_headers,
  begin_save, updates, begins, writes,
}
use omegacrawl.Storage.Incremental.Saved.{Runs, stays, goes, map_of, entries_in, Runs-saved}

abbrev known : CacheFile
known = CacheFile.holds (
    (
      codes "u",
      record { etag = codes "e1"; last_modified = codes "m1"; status_code = 200; fetched_at = 1 },
    )
    ∷ [])

abbrev new_etag : List (List ℕ × List ℕ)
new_etag = (codes "etag", codes "e2") ∷ []

abbrev headers_after : Option ResourceCache → List ℕ × List ℕ
headers_after none = ([], [])
headers_after (some c) = conditional_headers c (codes "u")

-- A response with a new tag alone leaves the date.
update_test :
    headers_after (update_from_response (new_resource_cache known) 5 (codes "u") 200 new_etag)
    ≡ (codes "e2", codes "m1")
unfolding update_from_response new_resource_cache conditional_headers bytes_equal lookup
update_test = refl

-- A file of the JSON `null` makes the first update panic.
null_test :
    update_from_response (new_resource_cache CacheFile.null) 5 (codes "u") 200 new_etag ≡ none
unfolding update_from_response new_resource_cache bytes_equal lookup
null_test = refl

abbrev first : ResourceCache
first = record {
  heap =
      record { etag = codes "e2"; last_modified = codes "m1"; status_code = 200; fetched_at = 5 }
      ∷ [];
  entries = some ((codes "u", 0) ∷ []);
  dirty = true;
  file = known;
  saving = [];
}

abbrev begun : ResourceCache
begun = record first { dirty = false; saving = ((codes "u", 0) ∷ []) ∷ [] }

abbrev saved : ResourceCache
saved = record first {
  dirty = false;
  file = CacheFile.holds (contents first.heap ((codes "u", 0) ∷ []));
}

run : Runs (new_resource_cache known) saved
unfolding update_from_response new_resource_cache bytes_equal lookup begin_save
run = goes (updates {d = first} 5 (codes "u") 200 new_etag refl) (omega arith) (
    goes (begins {d = begun} refl) (omega arith)
      (goes (writes {d = saved} [] [] ((codes "u", 0) ∷ []) refl refl) (omega arith) stays))

Runs-saved_example : entries_in saved.file ≡ contents saved.heap (map_of saved)
Runs-saved_example = Runs-saved known saved run refl refl
