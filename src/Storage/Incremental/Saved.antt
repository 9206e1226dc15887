-- ===== src/Storage/Incremental/Saved.antt =====
-- internal/storage/incremental.go: the file against the entries in memory.
use mathlib.Core.Path.{subst}
use mathlib.Core.List.{append_assoc}
use omegacrawl.Base.{
  ℕ, ◌+◌, ◌≤◌, ◌≡◌, refl, sym, ap, ◌∙◌, ◌⊎◌, inl, inr, Bool-cases, Option-cases, true, false, not,
  ◌&&◌, List, [], ◌∷◌, ◌++◌, none, some, arith, ◌==◌, length, length-append,
}
use omegacrawl.Errors.Classify.{codes}
use omegacrawl.Storage.Clean.{is_empty}
use omegacrawl.Storage.Incremental.{
  ResourceCacheEntry, CacheFile, Pointers, ResourceCache, deref, contents, allocate,
  new_resource_cache, put, update_from_response, begin_save, store_response, pointer_of, updated,
  empty_entry, header, or_else, Step, sets, updates, begins, writes, fails,
}

-- The map in memory, a nil map being empty.
abbrev pub map_of : ResourceCache → Pointers
map_of c = elim c.entries [ none ↦ [] | some m ↦ m ]

-- The entries that a file gives.
abbrev pub entries_in : CacheFile → List (List ℕ × ResourceCacheEntry)
entries_in CacheFile.unreadable = []
entries_in CacheFile.null = []
entries_in (CacheFile.holds l) = l

-- Steps of calls of which at most one is a save under way.
pub data Runs : ResourceCache → ResourceCache → Type 0 where
  stays : {c : ResourceCache} → Runs c c
  goes : {c d e : ResourceCache} → Step c d → length d.saving ≤ 1 → Runs d e → Runs c e

-- The cache has changes to save, or its file is up to date, or a save of the very map is under way.
abbrev pub IsAccounted : ResourceCache → Type 0
IsAccounted c =
    (c.dirty ≡ true)
    ⊎ ((c.saving ≡ []) × (entries_in c.file ≡ contents c.heap (map_of c)))
    ⊎ (c.saving ≡ map_of c ∷ [])

put-dirty :
    (c d : ResourceCache) (url : List ℕ) (e : ResourceCacheEntry)
    → put c url e ≡ some d
    → d.dirty ≡ true
unfolding put
put-dirty c d url e p = elim (Option-cases c.entries) [
  | inl q ↦ ground arith
  | inr (m, q) ↦ ground arith
]

store_response-dirty :
    (c d : ResourceCache) (now : ℕ) (url : List ℕ) (status : ℕ) (etag lm : List ℕ)
    → store_response c now url status etag lm ≡ some d
    → d.dirty ≡ true
unfolding store_response
store_response-dirty c d now url status etag lm p = elim (Option-cases (pointer_of c url)) [
  | inl q ↦ put-dirty c d url (updated empty_entry etag lm status now) (ground (arith, p, q))
  | inr (a, q) ↦ ground arith
]

update-dirty :
    (c d : ResourceCache) (now : ℕ) (url : List ℕ) (status : ℕ) (headers : List (List ℕ × List ℕ))
    → update_from_response c now url status headers ≡ some d
    → (d ≡ c) ⊎ (d.dirty ≡ true)
unfolding update_from_response
update-dirty c d now url status headers p =
    let etag = or_else (header headers (codes "Etag")) (header headers (codes "etag")) in
    let lm =
      or_else (header headers (codes "Last-Modified")) (header headers (codes "last-modified")) in
    elim (Bool-cases (is_empty etag && is_empty lm && not (status == 304))) [
      | inl t ↦ inl (ground arith)
      | inr t ↦ inr (store_response-dirty c d now url status etag lm (ground arith))
    ]

middle_of_one {ℓ} :
    {A : Type ℓ} (before after : List A) (m : A) (l : List A)
    → l ≡ before ++ m ∷ after
    → length l ≤ 1
    → (l ≡ m ∷ []) × (before ++ after ≡ [])
middle_of_one [] [] m l p b = (p, refl)
middle_of_one [] (x ∷ after) m l p b = absurd (omega (arith, ap length p))
middle_of_one (x ∷ before) after m l p b =
    absurd (omega (arith, ap length p, length-append before (m ∷ after)))

begin_dirty :
    (c : ResourceCache)
    → c.dirty ≡ true
    → begin_save c ≡ record c { dirty = false; saving = map_of c ∷ c.saving }
unfolding begin_save
begin_dirty c t = ground arith

no_saving : (l : List Pointers) → length l ≤ 0 → l ≡ []
no_saving [] h = refl
no_saving (m ∷ l) h = absurd (omega arith)

begin_save-IsAccounted :
    (c : ResourceCache)
    → length (begin_save c).saving ≤ 1
    → IsAccounted c
    → IsAccounted (begin_save c)
unfolding begin_save
begin_save-IsAccounted c b h = elim (Bool-cases c.dirty) [
  | inl t ↦
      let begun = begin_dirty c t in
      let empty = no_saving c.saving (omega (arith, ap (λ k. length k.saving) begun)) in
      subst IsAccounted (sym begun) (inr (inr (ap (λ l. map_of c ∷ l) empty)))
  | inr t ↦ let same : begin_save c ≡ c = ground arith in subst IsAccounted (sym same) h
]

writes-IsAccounted :
    (c : ResourceCache) (before after : List Pointers) (m : Pointers)
    → c.saving ≡ before ++ m ∷ after
    → length c.saving ≤ 1
    → IsAccounted c
    → IsAccounted
        (record c { file = CacheFile.holds (contents c.heap m); saving = before ++ after })
writes-IsAccounted c before after m p b (inl t) = inl t
writes-IsAccounted c before after m p b (inr (inl (n, q))) =
    absurd (omega (arith, ap length (sym n ∙ p), length-append before (m ∷ after)))
writes-IsAccounted c before after m p b (inr (inr q)) =
    let (e, f) = middle_of_one before after m c.saving p b in
    let same : m ≡ map_of c = cc in inr (inl (f, ap (contents c.heap) same))

Step-IsAccounted :
    {c d : ResourceCache}
    → Step c d
    → length c.saving ≤ 1
    → length d.saving ≤ 1
    → IsAccounted c
    → IsAccounted d
Step-IsAccounted {c} {d} (sets url e p) a b h = inl (put-dirty c d url e p)
Step-IsAccounted {c} {d} (updates now url status headers p) a b h =
    elim (update-dirty c d now url status headers p) [
      | inl same ↦ subst IsAccounted (sym same) h
      | inr t ↦ inl t
    ]
Step-IsAccounted {c} (begins e) a b h = rw e (begin_save-IsAccounted c (rw (sym e) b) h)
Step-IsAccounted {c} (writes before after m p e) a b h =
    rw e (writes-IsAccounted c before after m p a h)
Step-IsAccounted (fails before after m left p e) a b h = inl (rw e refl)

Runs-IsAccounted :
    {c d : ResourceCache} → Runs c d → length c.saving ≤ 1 → IsAccounted c → IsAccounted d
Runs-IsAccounted stays a h = h
Runs-IsAccounted (goes step b run) a h = Runs-IsAccounted run b (Step-IsAccounted step a b h)

deref-append :
    (l k : List ResourceCacheEntry) (e : ResourceCacheEntry) → deref (l ++ e ∷ k) (length l) ≡ e
deref-append [] k e = refl
deref-append (x ∷ l) k e = deref-append l k e

contents-allocate :
    (before : List ResourceCacheEntry) (l : List (List ℕ × ResourceCacheEntry))
    → contents (before ++ (allocate (length before) l).0) (allocate (length before) l).1 ≡ l
unfolding contents allocate
contents-allocate before [] = refl
contents-allocate before ((url, e) ∷ l) =
    let next = allocate (length before + 1) l in
    let n : length (before ++ e ∷ []) ≡ length before + 1 =
      omega (arith, length-append before (e ∷ [])) in
    let moved : contents ((before ++ e ∷ []) ++ next.0) next.1 ≡ l =
      subst (λ k. contents ((before ++ e ∷ []) ++ (allocate k l).0) (allocate k l).1 ≡ l) n
        (contents-allocate (before ++ e ∷ []) l) in
    let rest : contents (before ++ e ∷ next.0) next.1 ≡ l =
      ap (λ h. contents h next.1) (sym (append_assoc before (e ∷ []) next.0)) ∙ moved in
    let here : deref (before ++ e ∷ next.0) (length before) ≡ e = deref-append before next.0 e in
    ap (λ d. (url, d) ∷ contents (before ++ e ∷ next.0) next.1) here ∙ ap (λ t. (url, e) ∷ t) rest

new-IsAccounted : (file : CacheFile) → IsAccounted (new_resource_cache file)
unfolding new_resource_cache contents
new-IsAccounted CacheFile.unreadable = inr (inl (refl, refl))
new-IsAccounted CacheFile.null = inr (inl (refl, refl))
new-IsAccounted (CacheFile.holds l) = inr (inl (refl, sym (contents-allocate [] l)))

new_saving : (file : CacheFile) → length (new_resource_cache file).saving ≤ 1
unfolding new_resource_cache
new_saving CacheFile.unreadable = omega arith
new_saving CacheFile.null = omega arith
new_saving (CacheFile.holds l) = omega arith

-- With at most one save under way at a time, a cache opened on any file and then used in any way has
-- its entries in the file whenever it is not dirty and no save is under way, also after writes that
-- failed.
pub Runs-saved :
    (file : CacheFile) (c : ResourceCache)
    → Runs (new_resource_cache file) c
    → c.dirty ≡ false
    → c.saving ≡ []
    → entries_in c.file ≡ contents c.heap (map_of c)
Runs-saved file c run t s = elim (Runs-IsAccounted run (new_saving file) (new-IsAccounted file)) [
  | inl d ↦ ground (arith, t, d)
  | inr (inl (n, e)) ↦ e
  | inr (inr q) ↦ absurd (omega (arith, ap length (sym s ∙ q)))
]
