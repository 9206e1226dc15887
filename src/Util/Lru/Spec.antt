-- ===== src/Util/Lru/Spec.antt =====
-- What internal/util/lru_cache.go and lru_set.go promise: a list of entries, the most recently used
-- first, that is cut at the capacity; and the calls of the caches' methods.
use omegacrawl.Base.{ℕ, Bool, true, false, List, [], ◌∷◌, Option, none, some, String, length, take}
use omegacrawl.Base.Dict
use omegacrawl.Util.Lru.{Lru, get, put, put_if_absent, add_if_absent, contains, len, clear}

pub data Call (V : Type 0) : Type 0 where
  gets : String → Call V
  puts : String → V → Call V
  puts_if_absent : String → V → Call V
  adds_if_absent : String → V → Call V
  asks : String → Call V
  counts : Call V
  clears : Call V

-- What a call returns.
pub data Answer (V : Type 0) : Type 0 where
  done : Answer V
  found : Option V → Answer V
  kept : V → Bool → Answer V
  told : Bool → Answer V
  counted : ℕ → Answer V

module _ {V : Type 0} where
  -- A call on the cache; `none` is a panic.
  unfoldable pub call : Call V → Lru V → Option (Lru V × Answer V)
  unfolding get put put_if_absent add_if_absent
  call (gets k) c = elim (get k c) [ none ↦ none | some (d, o) ↦ some (d, found o) ]
  call (puts k v) c = elim (put k v c) [ none ↦ none | some d ↦ some (d, done) ]
  call (puts_if_absent k v) c = elim (put_if_absent k v c) [
    | none ↦ none
    | some (d, w, b) ↦ some (d, kept w b)
  ]
  call (adds_if_absent k v) c = elim (add_if_absent k v c) [
    | none ↦ none
    | some (d, b) ↦ some (d, told b)
  ]
  call (asks k) c = some (c, told (contains k c))
  call counts c = some (c, counted (len c))
  call clears c = some (clear c, done)

  unfoldable pub calls : List (Call V) → Lru V → Option (Lru V × List (Answer V))
  unfolding call
  calls [] c = some (c, [])
  calls (x ∷ xs) c = elim (call x c) [
    | none ↦ none
    | some (d, a) ↦ elim (calls xs d) [ none ↦ none | some (e, l) ↦ some (e, a ∷ l) ]
  ]

  -- An entry comes first, and under its key there is no other.
  unfoldable pub promote : String → V → List (String × V) → List (String × V)
  promote k v r = (k, v) ∷ Dict.delete k r

  abbrev pub is_some : Option V → Bool
  is_some none = false
  is_some (some v) = true

  -- What a call does to the entries of a cache of the given capacity.
  unfoldable pub spec : ℕ → Call V → List (String × V) → List (String × V) × Answer V
  unfolding promote
  spec limit (gets k) r = elim (Dict.lookup k r) [
    | none ↦ (r, found none)
    | some v ↦ (promote k v r, found (some v))
  ]
  spec limit (puts k v) r = (take limit (promote k v r), done)
  spec limit (puts_if_absent k v) r = elim (Dict.lookup k r) [
    | none ↦ (take limit ((k, v) ∷ r), kept v true)
    | some w ↦ (promote k w r, kept w false)
  ]
  spec limit (adds_if_absent k v) r = elim (Dict.lookup k r) [
    | none ↦ (take limit ((k, v) ∷ r), told true)
    | some w ↦ (r, told false)
  ]
  spec limit (asks k) r = (r, told (is_some (Dict.lookup k r)))
  spec limit counts r = (r, counted (length r))
  spec limit clears r = ([], done)

  unfoldable pub specs : ℕ → List (Call V) → List (String × V) → List (String × V) × List (Answer V)
  unfolding spec
  specs limit [] r = (r, [])
  specs limit (x ∷ xs) r =
      let (s, a) = spec limit x r in let (t, l) = specs limit xs s in (t, a ∷ l)
