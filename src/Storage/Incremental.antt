-- ===== src/Storage/Incremental.antt =====
-- internal/storage/incremental.go: the cache of validation data. The map holds pointers: `heap` is the
-- entries by their address, and a map may be nil; an entry of a file is not null. Texts are their
-- bytes; os and encoding/json are what the file reads as.
use omegacrawl.Base.{
  ℕ, ◌+◌, ◌≡◌, Bool, true, false, not, ◌&&◌, ◌||◌, List, [], ◌∷◌, ◌++◌, Option, none, some,
  if◌then◌else◌, ◌==◌, ltb, length, get_elem?, set,
}
use omegacrawl.Base.Bytes.{lookup, insert}
use omegacrawl.Storage.Clean.{is_empty}
use omegacrawl.Errors.Classify.{codes}
pub mod Saved
mod Examples

pub record ResourceCacheEntry : Type 0 where
  pub etag : List ℕ
  pub last_modified : List ℕ
  pub status_code : ℕ
  pub fetched_at : ℕ

abbrev pub empty_entry : ResourceCacheEntry
empty_entry = record { etag = []; last_modified = []; status_code = 0; fetched_at = 0 }

-- What the file at the cache's path is: absent or no JSON of entries, the JSON `null`, or entries.
pub data CacheFile : Type 0 where
  unreadable : CacheFile
  null : CacheFile
  holds : List (List ℕ × ResourceCacheEntry) → CacheFile

abbrev pub Pointers : Type 0
Pointers = List (List ℕ × ℕ)

-- The cache, its file, and the maps that calls of `Save` copied and have yet to write.
pub record ResourceCache : Type 0 where
  pub heap : List ResourceCacheEntry
  pub entries : Option Pointers
  pub dirty : Bool
  pub file : CacheFile
  pub saving : List Pointers

abbrev pub deref : List ResourceCacheEntry → ℕ → ResourceCacheEntry
deref heap a = elim (get_elem? heap a) [ none ↦ empty_entry | some e ↦ e ]

-- The map's entries as they are written.
unfoldable pub contents : List ResourceCacheEntry → Pointers → List (List ℕ × ResourceCacheEntry)
contents heap [] = []
contents heap ((url, a) ∷ m) = (url, deref heap a) ∷ contents heap m

-- The entries of a file, each at a new address.
unfoldable pub allocate :
    ℕ → List (List ℕ × ResourceCacheEntry) → List ResourceCacheEntry × Pointers
allocate a [] = ([], [])
allocate a ((url, e) ∷ l) = let (heap, m) = allocate (a + 1) l in (e ∷ heap, (url, a) ∷ m)

-- `NewResourceCache` with `load`, for a path that is not empty.
unfoldable pub new_resource_cache : CacheFile → ResourceCache
unfolding allocate
new_resource_cache unreadable = record {
  heap = [];
  entries = some [];
  dirty = false;
  file = unreadable;
  saving = [];
}
new_resource_cache null = record {
  heap = [];
  entries = none;
  dirty = false;
  file = null;
  saving = [];
}
new_resource_cache (holds l) = record {
  heap = (allocate 0 l).0;
  entries = some (allocate 0 l).1;
  dirty = false;
  file = holds l;
  saving = [];
}

-- `Get`
unfoldable pub get : ResourceCache → List ℕ → Option ResourceCacheEntry
unfolding lookup
get c url = elim c.entries [
  | none ↦ none
  | some m ↦ elim (lookup url m) [ none ↦ none | some a ↦ some (deref c.heap a) ]
]

-- `ConditionalHeaders`
unfoldable pub conditional_headers : ResourceCache → List ℕ → List ℕ × List ℕ
unfolding get
conditional_headers c url = elim (get c url) [
  | none ↦ ([], [])
  | some e ↦ (e.etag, e.last_modified)
]

-- An entry put under the URL at a new address; `none` is the panic of a write to a nil map.
unfoldable pub put : ResourceCache → List ℕ → ResourceCacheEntry → Option ResourceCache
unfolding insert
put c url entry = elim c.entries [
  | none ↦ none
  | some m ↦ some (record c {
    heap = c.heap ++ entry ∷ [];
    entries = some (insert url (length c.heap) m);
    dirty = true;
  })
]

-- `headers[key]`, empty where it is missing.
unfoldable pub header : List (List ℕ × List ℕ) → List ℕ → List ℕ
unfolding lookup
header headers key = elim (lookup key headers) [ none ↦ [] | some v ↦ v ]

abbrev pub or_else : List ℕ → List ℕ → List ℕ
or_else [] other = other
or_else (b ∷ s) other = b ∷ s

-- The entry with the data of a response, which replaces what is there unless it is empty.
unfoldable pub updated : ResourceCacheEntry → List ℕ → List ℕ → ℕ → ℕ → ResourceCacheEntry
updated e etag last_modified status_code now = record {
  etag = or_else etag e.etag;
  last_modified = or_else last_modified e.last_modified;
  status_code = if ltb 0 status_code then status_code else e.status_code;
  fetched_at = now;
}

-- `c.entries[url]`
unfoldable pub pointer_of : ResourceCache → List ℕ → Option ℕ
unfolding lookup
pointer_of c url = elim c.entries [ none ↦ none | some m ↦ lookup url m ]

-- The locked part of `UpdateFromResponse`; `none` is the panic of a write to a nil map.
unfoldable pub store_response :
    ResourceCache → ℕ → List ℕ → ℕ → List ℕ → List ℕ → Option ResourceCache
unfolding pointer_of put updated
store_response c now url status_code etag lm = elim (pointer_of c url) [
  | none ↦ put c url (updated empty_entry etag lm status_code now)
  | some a ↦ some (record c {
    heap = set c.heap a (updated (deref c.heap a) etag lm status_code now);
    dirty = true;
  })
]

-- `UpdateFromResponse` at the time `now`, of a status code that is not negative.
unfoldable pub update_from_response :
    ResourceCache → ℕ → List ℕ → ℕ → List (List ℕ × List ℕ) → Option ResourceCache
unfolding header store_response
update_from_response c now url status_code headers =
    let etag = or_else (header headers (codes "Etag")) (header headers (codes "etag")) in
    let lm =
      or_else (header headers (codes "Last-Modified")) (header headers (codes "last-modified")) in
    if is_empty etag && is_empty lm && not (status_code == 304)
    then some c
    else store_response c now url status_code etag lm

-- `Save` up to the end of its locked part, for a cache that is dirty: the map is copied.
unfoldable pub begin_save : ResourceCache → ResourceCache
begin_save c =
    let copied : Pointers = elim c.entries [ none ↦ [] | some m ↦ m ] in
    if c.dirty then record c { dirty = false; saving = copied ∷ c.saving } else c

-- A step of a call: an update of an entry, the start of a save, and the end of one, whose write
-- succeeds, or fails and leaves a file.
pub data Step : ResourceCache → ResourceCache → Type 0 where
  sets :
      {c d : ResourceCache} (url : List ℕ) (entry : ResourceCacheEntry)
      → put c url entry ≡ some d
      → Step c d
  updates :
      {c d : ResourceCache} (now : ℕ) (url : List ℕ) (status_code : ℕ)
      (headers : List (List ℕ × List ℕ))
      → update_from_response c now url status_code headers ≡ some d
      → Step c d
  begins : {c d : ResourceCache} → d ≡ begin_save c → Step c d
  writes :
      {c d : ResourceCache} (before after : List Pointers) (m : Pointers)
      → c.saving ≡ before ++ m ∷ after
      → d ≡ record c { file = holds (contents c.heap m); saving = before ++ after }
      → Step c d
  fails :
      {c d : ResourceCache} (before after : List Pointers) (m : Pointers) (left : CacheFile)
      → c.saving ≡ before ++ m ∷ after
      → d ≡ record c { file = left; saving = before ++ after; dirty = true }
      → Step c d
