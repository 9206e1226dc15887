-- ===== src/Sync/Examples.antt =====
-- Test data for the sharded map, and the theorems applied to it.
use Prim.Native.String.{String}
use omegacrawl.Base.{ℕ, arith}
use omegacrawl.Sync.Sharded.{ShardedMap, new_sharded_map, shard_count}
use omegacrawl.Sync.Sharded
use omegacrawl.Sync.Laws.{IsValid}
use omegacrawl.Sync.Implements.{new-IsValid, put-IsValid}

abbrev hash_second : String → ℕ
hash_second key = 1

abbrev counts : ShardedMap ℕ
counts = Sharded.put hash_second "a" 3 (new_sharded_map 2)

counts-IsValid : IsValid hash_second counts
unfolding shard_count
counts-IsValid = put-IsValid hash_second "a" 3 _ (new-IsValid hash_second ℕ 2 (omega arith))
