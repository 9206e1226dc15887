-- ===== src/Sync/Laws.antt =====
-- internal/sync/sharded.go: the sharded map is one map. Every key is kept in the shard that its
-- hash selects, once.
use Prim.Native.String.{String}
use Prim.Native.Nat.{bit_and}
use text.Mathlib.Text.{◌==◌}
use text.Mathlib.TextEquality.{eq_iff}
use omegacrawl.Base.{
  ℕ, suc, ◌<◌, ◌≡◌, ◌≢◌, ap, inl, inr, List, [], ◌∷◌, Option, none, some, if◌then◌else◌, length,
  get_elem?, All, arith, Bool-cases, get_elem?-set_self, get_elem?-set_ne,
}
use native.Mathlib.Decide.{ℕ_discrete}
use omegacrawl.Base.Bits.{bit_and-le_right}
use omegacrawl.Base.Dict
use omegacrawl.Sync.Sharded.{ShardedMap, new_sharded_map, shard_count}
use omegacrawl.Sync.Sharded

-- No key stands twice in a shard.
abbrev pub Distinct : {V : Type 0} → List (String × V) → Type 0
Distinct [] = Unit
Distinct (e ∷ s) = (Dict.lookup e.0 s ≡ none) × Distinct s

module _ (hash_fn : String → ℕ) {V : Type 0} where
  -- Every key of the shard belongs to shard `i` under the mask.
  abbrev pub Placed : ℕ → ℕ → List (String × V) → Type 0
  Placed mask i s = All (λ e. bit_and (hash_fn e.0) mask ≡ i) s

  -- The shards from index `i` on.
  abbrev pub Shards : ℕ → ℕ → List (List (String × V)) → Type 0
  Shards mask i [] = Unit
  Shards mask i (s ∷ ss) = Placed mask i s × Distinct s × Shards mask (suc i) ss

  pub record IsValid (sm : ShardedMap V) : Type 0 where
    pub in_range : sm.shard_mask < length sm.shards
    pub shards : Shards sm.shard_mask 0 sm.shards

  -- The index of `getShard` is never out of range.
  pub shard_index-lt :
      (sm : ShardedMap V) (key : String)
      → IsValid sm
      → Sharded.shard_index hash_fn sm key < length sm.shards
  unfolding Sharded.shard_index
  shard_index-lt sm key v = omega (arith, bit_and-le_right (hash_fn key) sm.shard_mask)

  get_shard-set_shard_same :
      (sm : ShardedMap V) (k j : String) (s : List (String × V))
      → IsValid sm
      → Sharded.shard_index hash_fn sm k ≡ Sharded.shard_index hash_fn sm j
      → Sharded.get_shard hash_fn (Sharded.set_shard hash_fn sm k s) j ≡ s
  unfolding Sharded.get_shard Sharded.set_shard Sharded.shard_index
  get_shard-set_shard_same sm k j s v e =
      let lt : bit_and (hash_fn k) sm.shard_mask < length sm.shards = shard_index-lt sm k v in
      rw (Sharded.get_shard, ← e, get_elem?-set_self sm.shards _ s lt)

  get_shard-set_shard_ne :
      (sm : ShardedMap V) (k j : String) (s : List (String × V))
      → Sharded.shard_index hash_fn sm k ≢ Sharded.shard_index hash_fn sm j
      → Sharded.get_shard hash_fn (Sharded.set_shard hash_fn sm k s) j
        ≡ Sharded.get_shard hash_fn sm j
  unfolding Sharded.get_shard Sharded.set_shard Sharded.shard_index
  get_shard-set_shard_ne sm k j s ne = ap Sharded.or_empty (get_elem?-set_ne sm.shards _ _ s ne)

  get_shard-same :
      (sm : ShardedMap V) (k j : String)
      → Sharded.shard_index hash_fn sm k ≡ Sharded.shard_index hash_fn sm j
      → Sharded.get_shard hash_fn sm k ≡ Sharded.get_shard hash_fn sm j
  unfolding Sharded.get_shard
  get_shard-same sm k j e = ap (λ i. Sharded.or_empty (get_elem? sm.shards i)) e

  -- A read after a write to the shard of `k`, where the write acts on `k` alone.
  get-set_shard :
      (sm : ShardedMap V) (k j : String) (s : List (String × V)) (o : Option V)
      → IsValid sm
      → ((i : String)
          → Dict.lookup i s
            ≡ (if k == i then o else Dict.lookup i (Sharded.get_shard hash_fn sm k)))
      → Sharded.get hash_fn j (Sharded.set_shard hash_fn sm k s)
        ≡ (if k == j then o else Sharded.get hash_fn j sm)
  unfolding Sharded.get
  get-set_shard sm k j s o v h = elim (ℕ_discrete (index k) (index j)) [
    | yes e ↦
        rw (Sharded.get, get_shard-set_shard_same sm k j s v e, h j)
          (ap (λ t. if k == j then o else Dict.lookup j t) (get_shard-same sm k j e))
    | no n ↦ elim (Bool-cases (k == j)) [
      | inl e ↦ absurd (n (ap index ((eq_iff k j).0 e)))
      | inr e ↦ rw (e, Sharded.get, get_shard-set_shard_ne sm k j s n)
    ]
  ]
    where
      index : String → ℕ
      index = Sharded.shard_index hash_fn sm

  -- On a well formed map, `Get` after `Set` finds the value that was set, and under every other key
  -- what was there before.
  pub get-put :
      (k j : String) (v : V) (sm : ShardedMap V)
      → IsValid sm
      → Sharded.get hash_fn j (Sharded.put hash_fn k v sm)
        ≡ (if k == j then some v else Sharded.get hash_fn j sm)
  unfolding Sharded.put
  get-put k j v sm ok = get-set_shard sm k j _ (some v) ok (λ i. Dict.lookup-insert k i v _)

  -- On a well formed map, `Get` after `Delete` finds nothing under the key, and under every other
  -- key what was there before.
  pub get-delete :
      (k j : String) (sm : ShardedMap V)
      → IsValid sm
      → Sharded.get hash_fn j (Sharded.delete hash_fn k sm)
        ≡ (if k == j then none else Sharded.get hash_fn j sm)
  unfolding Sharded.delete
  get-delete k j sm ok = get-set_shard sm k j _ none ok (λ i. Dict.lookup-delete k i _)
