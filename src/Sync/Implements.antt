-- ===== src/Sync/Implements.antt =====
-- internal/sync/sharded.go: the sharded map implements the interface of `Sync.Keyed`.
use Prim.Native.String.{String}
use Prim.Native.Nat.{bit_and}
use omegacrawl.Base.{
  ℕ, zero, suc, ◌+◌, ◌-◌, ◌<◌, ◌≡◌, refl, ◌↔◌, inl, inr, List, [], ◌∷◌, some, get_elem?, set,
  replicate, arith, length-set, length-replicate,
}
use omegacrawl.Base.Dict
use omegacrawl.Sync.Keyed.{KeyedMap, Has}
use omegacrawl.Sync.Sharded.{ShardedMap, new_sharded_map, shard_count}
use omegacrawl.Sync.Sharded
use omegacrawl.Sync.Laws.{Distinct, Placed, Shards, IsValid, get-put, get-delete}
use omegacrawl.Sync.Entries.{
  Distinct-insert, Distinct-delete, Has-append-left, Has-append-right, Has-append-cases,
  lookup_of_Has, Has-of_lookup, Placed-insert, Placed-delete, Placed-Has,
}

module _ (hash_fn : String → ℕ) {V : Type 0} where
  -- The shard at an index is placed and distinct; a shard that is not there reads as empty.
  Shards-get :
      (mask i n : ℕ) (ss : List (List (String × V)))
      → Shards hash_fn mask i ss
      → Placed hash_fn mask (n + i) (Sharded.or_empty (get_elem? ss n))
        × Distinct (Sharded.or_empty (get_elem? ss n))
  Shards-get mask i n [] h = (tt, tt)
  Shards-get mask i zero (s ∷ ss) (p, d, h) = (let e : zero + i ≡ i = omega arith in rw e p, d)
  Shards-get mask i (suc n) (s ∷ ss) (p, d, h) =
      let e : suc n + i ≡ n + suc i = omega arith in rw e (Shards-get mask (suc i) n ss h)

  Shards-set :
      (mask i n : ℕ) (s : List (String × V)) (ss : List (List (String × V)))
      → Shards hash_fn mask i ss
      → Placed hash_fn mask (n + i) s
      → Distinct s
      → Shards hash_fn mask i (set ss n s)
  Shards-set mask i n s [] h q c = tt
  Shards-set mask i zero s (x ∷ ss) (p, d, h) q c =
      (let e : zero + i ≡ i = omega arith in rw e at q, c, h)
  Shards-set mask i (suc n) s (x ∷ ss) (p, d, h) q c =
      let e : suc n + i ≡ n + suc i = omega arith in
      (p, d, Shards-set mask (suc i) n s ss h (rw e at q) c)

  set_shard-IsValid :
      (sm : ShardedMap V) (key : String) (s : List (String × V))
      → IsValid hash_fn sm
      → Placed hash_fn sm.shard_mask (Sharded.shard_index hash_fn sm key) s
      → Distinct s
      → IsValid hash_fn (Sharded.set_shard hash_fn sm key s)
  unfolding Sharded.set_shard
  set_shard-IsValid sm key s v p d = record {
    in_range =
        omega (arith, length-set sm.shards (Sharded.shard_index hash_fn sm key) s, v.in_range);
    shards =
        let e : Sharded.shard_index hash_fn sm key + 0 ≡ Sharded.shard_index hash_fn sm key =
          omega arith in
        Shards-set sm.shard_mask 0 (Sharded.shard_index hash_fn sm key) s sm.shards v.shards
          (rw e p) d;
  }

  get_shard-valid :
      (sm : ShardedMap V) (key : String)
      → IsValid hash_fn sm
      → Placed hash_fn sm.shard_mask
          (Sharded.shard_index hash_fn sm key)
          (Sharded.get_shard hash_fn sm key)
        × Distinct (Sharded.get_shard hash_fn sm key)
  unfolding Sharded.get_shard
  get_shard-valid sm key v =
      let e : Sharded.shard_index hash_fn sm key + 0 ≡ Sharded.shard_index hash_fn sm key =
        omega arith in
      rw e at (Shards-get sm.shard_mask 0 (Sharded.shard_index hash_fn sm key) sm.shards v.shards)

  pub put-IsValid :
      (k : String) (v : V) (sm : ShardedMap V)
      → IsValid hash_fn sm
      → IsValid hash_fn (Sharded.put hash_fn k v sm)
  unfolding Sharded.put Sharded.shard_index
  put-IsValid k v sm ok =
      let (p, d) = get_shard-valid sm k ok in
      set_shard-IsValid sm k _ ok (Placed-insert hash_fn sm.shard_mask _ k v _ refl p)
        (Distinct-insert k v _ d)

  pub delete-IsValid :
      (k : String) (sm : ShardedMap V)
      → IsValid hash_fn sm
      → IsValid hash_fn (Sharded.delete hash_fn k sm)
  unfolding Sharded.delete Sharded.shard_index
  delete-IsValid k sm ok =
      let (p, d) = get_shard-valid sm k ok in
      set_shard-IsValid sm k _ ok (Placed-delete hash_fn sm.shard_mask _ k _ p)
        (Distinct-delete k _ d)

  Has-concat :
      (mask i n : ℕ) (k : String) (v : V) (ss : List (List (String × V)))
      → Has (k, v) (Sharded.or_empty (get_elem? ss n))
      → Has (k, v) (Sharded.concat ss)
  unfolding Sharded.concat
  Has-concat mask i n k v [] h = absurd h
  Has-concat mask i zero k v (s ∷ ss) h = Has-append-left (k, v) s _ h
  Has-concat mask i (suc n) k v (s ∷ ss) h =
      Has-append-right (k, v) s _ (Has-concat mask (suc i) n k v ss h)

  concat-Has :
      (mask i : ℕ) (k : String) (v : V) (ss : List (List (String × V)))
      → Shards hash_fn mask i ss
      → Has (k, v) (Sharded.concat ss)
      → (n : ℕ) × (bit_and (hash_fn k) mask ≡ n + i)
        × Has (k, v) (Sharded.or_empty (get_elem? ss n))
  unfolding Sharded.concat
  concat-Has mask i k v [] g h = absurd h
  concat-Has mask i k v (s ∷ ss) (p, d, g) h = elim (Has-append-cases (k, v) s _ h) [
    | inl a ↦ (0, omega (arith, Placed-Has hash_fn mask i k v s p a), a)
    | inr b ↦ let (n, e, at) = concat-Has mask (suc i) k v ss g b in (suc n, omega (arith, e), at)
  ]

  -- On a well formed map `Range` visits exactly the entries that `Get` finds.
  pub Has-entries :
      (k : String) (v : V) (sm : ShardedMap V)
      → IsValid hash_fn sm
      → Has (k, v) (Sharded.entries sm) ↔ (Sharded.get hash_fn k sm ≡ some v)
  unfolding Sharded.entries Sharded.get Sharded.get_shard Sharded.shard_index
  Has-entries k v sm ok =
      (found, λ e. Has-concat sm.shard_mask 0 _ k v sm.shards (Has-of_lookup k v _ e))
    where
      found :
          Has (k, v) (Sharded.concat sm.shards)
          → Dict.lookup k
              (Sharded.or_empty (get_elem? sm.shards (bit_and (hash_fn k) sm.shard_mask)))
            ≡ some v
      found h =
          let (n, e, at) = concat-Has sm.shard_mask 0 k v sm.shards ok.shards h in
          let e' : bit_and (hash_fn k) sm.shard_mask ≡ n = omega (arith, e) in
          rw e' (lookup_of_Has k v _ (Shards-get sm.shard_mask 0 n sm.shards ok.shards).1 at)

module _ (hash_fn : String → ℕ) (V : Type 0) where
  Shards-replicate : (mask i n : ℕ) → Shards hash_fn {V = V} mask i (replicate n [])
  Shards-replicate mask i zero = tt
  Shards-replicate mask i (suc n) = (tt, tt, Shards-replicate mask (suc i) n)

  -- A map over at least one shard, a mask below their number.
  pub new-IsValid :
      (procs : ℕ) → 0 < shard_count procs → IsValid hash_fn (new_sharded_map {V = V} procs)
  unfolding new_sharded_map
  new-IsValid procs h = record {
    in_range = omega (arith, length-replicate (shard_count procs) empty);
    shards = Shards-replicate (shard_count procs - 1) 0 (shard_count procs);
  }
    where
      empty : List (String × V)
      empty = []

-- The interface that the host breakers use, filled.
abbrev pub sharded : (String → ℕ) → (V : Type 0) → KeyedMap V
sharded hash_fn V = record {
  Map = ShardedMap V;
  IsValid = IsValid hash_fn;
  get = Sharded.get hash_fn;
  put = Sharded.put hash_fn;
  delete = Sharded.delete hash_fn;
  entries = Sharded.entries;
  put-IsValid = put-IsValid hash_fn;
  delete-IsValid = delete-IsValid hash_fn;
  get-put = get-put hash_fn;
  get-delete = get-delete hash_fn;
  Has-entries = Has-entries hash_fn;
}
