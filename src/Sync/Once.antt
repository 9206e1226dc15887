-- ===== src/Sync/Once.antt =====
-- internal/sync/sharded.go: `GetOrSet` and `Clear`.
use Prim.Native.String.{String}
use text.Mathlib.Text.{◌==◌}
use omegacrawl.Base.{
  ℕ, zero, suc, ◌≡◌, refl, ap, ◌∙◌, ◌⊎◌, inl, inr, true, false, List, [], ◌∷◌, none, some,
  if◌then◌else◌, get_elem?, arith, Option-cases,
}
use omegacrawl.Base.Dict
use omegacrawl.Sync.Sharded.{ShardedMap}
use omegacrawl.Sync.Sharded
use omegacrawl.Sync.Laws.{IsValid, get-put}

module _ (hash_fn : String → ℕ) {V : Type 0} where
  get_or_set-found :
      (k : String) (v w : V) (sm : ShardedMap V)
      → Sharded.get hash_fn k sm ≡ some w
      → Sharded.get_or_set hash_fn k v sm ≡ (sm, w, true)
  unfolding Sharded.get Sharded.get_or_set
  get_or_set-found k v w sm e = rw (e, Sharded.get_or_set)

  get_or_set-new :
      (k : String) (v : V) (sm : ShardedMap V)
      → Sharded.get hash_fn k sm ≡ none
      → Sharded.get_or_set hash_fn k v sm ≡ (Sharded.put hash_fn k v sm, v, false)
  unfolding Sharded.get Sharded.get_or_set Sharded.put
  get_or_set-new k v sm e = rw (e, Sharded.get_or_set)

  -- On a well formed map `GetOrSet` either finds a value, returns it as loaded and leaves the map
  -- as it is, or finds none, returns the given value and sets it under its key alone.
  pub get_or_set_lem :
      (k j : String) (v : V) (sm : ShardedMap V)
      → IsValid hash_fn sm
      → ((w : V) × (Sharded.get hash_fn k sm ≡ some w)
          × (Sharded.get_or_set hash_fn k v sm ≡ (sm, w, true)))
        ⊎ ((Sharded.get hash_fn k sm ≡ none)
            × ((Sharded.get_or_set hash_fn k v sm).1 ≡ v)
            × ((Sharded.get_or_set hash_fn k v sm).2 ≡ false)
            × (Sharded.get hash_fn j (Sharded.get_or_set hash_fn k v sm).0
                ≡ (if k == j then some v else Sharded.get hash_fn j sm)))
  get_or_set_lem k j v sm ok = elim (Option-cases (Sharded.get hash_fn k sm)) [
    | inl e ↦
        let n = get_or_set-new k v sm e in
        inr (
          e,
          ap (λ r. r.1) n,
          ap (λ r. r.2) n,
          ap (λ r. Sharded.get hash_fn j r.0) n ∙ get-put hash_fn k j v sm ok,
        )
    | inr (w, e) ↦ inl (w, e, get_or_set-found k v w sm e)
  ]

  empty_shard :
      (i : ℕ) (ss : List (List (String × V)))
      → Sharded.or_empty (get_elem? (Sharded.empty_all ss) i) ≡ []
  unfolding Sharded.empty_all
  empty_shard i [] = refl
  empty_shard zero (s ∷ ss) = refl
  empty_shard (suc i) (s ∷ ss) = empty_shard i ss

  total-empty : (ss : List (List (String × V))) → Sharded.total (Sharded.empty_all ss) ≡ 0
  unfolding Sharded.empty_all Sharded.total
  total-empty [] = refl
  total-empty (s ∷ ss) = omega (arith, total-empty ss)

  -- After `Clear` the length is 0 and no key is found.
  pub clear_lem :
      (k : String) (sm : ShardedMap V)
      → (Sharded.len (Sharded.clear sm) ≡ 0) × (Sharded.get hash_fn k (Sharded.clear sm) ≡ none)
  unfolding Sharded.clear Sharded.len Sharded.get Sharded.get_shard Dict.lookup
  clear_lem k sm = (total-empty sm.shards, ap (Dict.lookup k) (empty_shard _ sm.shards))
