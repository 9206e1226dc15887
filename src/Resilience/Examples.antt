-- ===== src/Resilience/Examples.antt =====
-- Test data for the breakers, and the theorems applied to it.
use Prim.Native.String.{String}
use omegacrawl.Base.{ℕ, ◌≡◌, refl, [], ◌∷◌, none, arith}
use Prim.Native.Nat.{min}
use omegacrawl.Base.Dict
use omegacrawl.Sync.Keyed.{KeyedMap}
use omegacrawl.Sync.Sharded.{ShardedMap, new_sharded_map, shard_count}
use omegacrawl.Sync.Laws.{IsValid}
use omegacrawl.Sync.Sharded
use omegacrawl.Sync.Implements.{sharded, new-IsValid}
use omegacrawl.Resilience.Breaker.{
  state_closed, state_half_open, state_open, CircuitBreaker, new_circuit_breaker,
}
use omegacrawl.Resilience.Behaviour.{IsSound, allow_at, succeed, fail_at, clear, run, run-IsSound}
use omegacrawl.Resilience.Probes.{admitted, admitted-probes}
use omegacrawl.Resilience.Host.{fresh}
use omegacrawl.Resilience.Host
use omegacrawl.Resilience.Calls.{allow_host, success_host, failure_host, serve, serve_all}
use omegacrawl.Resilience.Unobservable.{Reached, start, called, cleanup_unobservable}

abbrev closed_breaker : CircuitBreaker
closed_breaker = record {
  state = state_closed;
  failure_count = 1;
  success_count = 0;
  failure_threshold = 3;
  success_threshold = 2;
  timeout = 10;
  last_failure = 5;
  half_open_since = 0;
  half_open_probes = 1;
  max_half_open_probes = 1;
}

abbrev open_breaker : CircuitBreaker
open_breaker = record closed_breaker { state = state_open; failure_count = 3 }

abbrev half_open_breaker : CircuitBreaker
half_open_breaker = record closed_breaker {
  state = state_half_open;
  failure_count = 0;
  half_open_since = 20;
}

run-IsSound_example :
    IsSound (run (fail_at 7 ∷ allow_at 8 9 ∷ succeed ∷ clear ∷ []) (new_circuit_breaker none))
run-IsSound_example = run-IsSound (fail_at 7 ∷ allow_at 8 9 ∷ succeed ∷ clear ∷ []) none

admitted-probes_example : admitted (21 ∷ 22 ∷ []) half_open_breaker ≡ min 2 1
admitted-probes_example =
    admitted-probes (21 ∷ 22 ∷ []) half_open_breaker refl (omega arith, (omega arith, tt))
      (omega arith) (omega arith)

-- A map of one processor's shards, every key in the first.
abbrev hash_first : String → ℕ
hash_first key = 0

abbrev breakers : KeyedMap CircuitBreaker
breakers = sharded hash_first CircuitBreaker

abbrev no_breakers : ShardedMap CircuitBreaker
no_breakers = new_sharded_map 1

no_breakers-IsValid : IsValid hash_first no_breakers
unfolding shard_count
no_breakers-IsValid = new-IsValid hash_first CircuitBreaker 1 (omega arith)

no_breakers_empty : (h : String) → Sharded.get hash_first h no_breakers ≡ none
unfolding Sharded.get Sharded.get_shard Sharded.shard_index new_sharded_map shard_count Dict.lookup
no_breakers_empty h = refl

abbrev two_breakers : ShardedMap CircuitBreaker
two_breakers =
    Sharded.put hash_first "a.org" fresh (Sharded.put hash_first "b.org" open_breaker no_breakers)

failed_once : Reached breakers (serve breakers (failure_host "b.org" 7) no_breakers).0
failed_once = called (start no_breakers-IsValid no_breakers_empty) (failure_host "b.org" 7)

cleanup_unobservable_example :
    serve_all breakers
      (success_host "a.org" ∷ allow_host "b.org" 8 9 ∷ [])
      (Host.cleanup breakers (serve breakers (failure_host "b.org" 7) no_breakers).0)
    ≡ serve_all breakers
        (success_host "a.org" ∷ allow_host "b.org" 8 9 ∷ [])
        (serve breakers (failure_host "b.org" 7) no_breakers).0
cleanup_unobservable_example =
    cleanup_unobservable breakers failed_once (success_host "a.org" ∷ allow_host "b.org" 8 9 ∷ [])
