-- ===== src/Sync/Sharded.antt =====
-- internal/sync/sharded.go: `ShardedMap` from strings. Each shard is a Go map (an association
-- list in some order); the lock of a shard makes an operation on it one step. The seeded hash of
-- hash/maphash is a parameter.
use Prim.Native.String.{String}
use Prim.Native.Nat.{bit_and, bit_or}
use omegacrawl.Base.{
  ℕ, ◌+◌, ◌-◌, ◌*◌, ◌/◌, ◌%◌, ◌^◌, Bool, true, false, List, [], ◌∷◌, ◌++◌, Option, none, some, ltb,
  if◌then◌else◌, length, get_elem?, set, replicate,
}
use omegacrawl.Base.Dict

-- `n |= n >> k`
abbrev smear : ℕ → ℕ → ℕ
smear k n = bit_or n (n / 2 ^ k)

-- `shardCount`, given `runtime.GOMAXPROCS(0)`.
unfoldable pub shard_count : ℕ → ℕ
shard_count procs =
    let n = (if ltb procs 4 then 4 else procs) * 4 - 1 in
    (smear 16 (smear 8 (smear 4 (smear 2 (smear 1 n)))) + 1) % 2 ^ 32

pub record ShardedMap (V : Type 0) : Type 0 where
  pub shards : List (List (String × V))
  pub shard_mask : ℕ

-- `NewShardedMap` with no options.
unfoldable pub new_sharded_map : {V : Type 0} → ℕ → ShardedMap V
new_sharded_map procs = record {
  shards = replicate (shard_count procs) [];
  shard_mask = shard_count procs - 1;
}

abbrev pub or_empty : {V : Type 0} → Option (List (String × V)) → List (String × V)
or_empty none = []
or_empty (some s) = s

module _ (hash_fn : String → ℕ) {V : Type 0} where
  -- The index of `getShard`.
  unfoldable pub shard_index : ShardedMap V → String → ℕ
  shard_index sm key = bit_and (hash_fn key) sm.shard_mask

  -- Go panics on an index out of range; here such a shard reads as empty, which never happens on
  -- a well formed map.
  unfoldable pub get_shard : ShardedMap V → String → List (String × V)
  get_shard sm key = or_empty (get_elem? sm.shards (shard_index sm key))

  -- A write to the shard of a key.
  unfoldable pub set_shard : ShardedMap V → String → List (String × V) → ShardedMap V
  set_shard sm key s = record sm { shards = set sm.shards (shard_index sm key) s }

  unfoldable pub get : String → ShardedMap V → Option V
  get key sm = Dict.lookup key (get_shard sm key)

  unfoldable pub put : String → V → ShardedMap V → ShardedMap V
  put key val sm = set_shard sm key (Dict.insert key val (get_shard sm key))

  unfoldable pub delete : String → ShardedMap V → ShardedMap V
  delete key sm = set_shard sm key (Dict.delete key (get_shard sm key))

  unfoldable pub has : String → ShardedMap V → Bool
  has key sm = elim (Dict.lookup key (get_shard sm key)) [ none ↦ false | some v ↦ true ]

  -- The map, the actual value, and whether it was loaded.
  unfoldable pub get_or_set : String → V → ShardedMap V → ShardedMap V × V × Bool
  get_or_set key val sm = elim (Dict.lookup key (get_shard sm key)) [
    | some existing ↦ (sm, existing, true)
    | none ↦ (set_shard sm key (Dict.insert key val (get_shard sm key)), val, false)
  ]

module _ {V : Type 0} where
  -- The loop of `Len`.
  unfoldable pub total : List (List (String × V)) → ℕ
  total [] = 0
  total (s ∷ ss) = length s + total ss

  unfoldable pub len : ShardedMap V → ℕ
  len sm = total sm.shards

  unfoldable pub concat : List (List (String × V)) → List (String × V)
  concat [] = []
  concat (s ∷ ss) = s ++ concat ss

  -- What `Range` visits when the callback never stops it, shard by shard.
  unfoldable pub entries : ShardedMap V → List (String × V)
  entries sm = concat sm.shards

  unfoldable pub empty_all : List (List (String × V)) → List (List (String × V))
  empty_all [] = []
  empty_all (s ∷ ss) = [] ∷ empty_all ss

  unfoldable pub clear : ShardedMap V → ShardedMap V
  clear sm = record sm { shards = empty_all sm.shards }

-- `Range`: the callback's state is threaded through, and it stops the walk by `false`.
unfoldable pub range_over : {V S : Type 0} → (String → V → S → S × Bool) → List (String × V) → S → S
range_over fn [] s = s
range_over fn ((k, v) ∷ es) s =
    let (s', more) = fn k v s in let rest = range_over fn es s' in if more then rest else s'
