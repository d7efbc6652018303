-- ===== src/Shard/Reclaim.antt =====
-- What an executor reclaims from a shard, of crates/seedstone-core/src/shard/executor.rs: the sweep
-- of expired keys and the eviction. The trace sink, which only observes, is left out.
use seedstone.Base.{ℕ, zero, suc, ◌+◌, Bool, true, false, Bytes, Option, none, some, List, [], ◌∷◌}
use seedstone.Dict
use seedstone.Dict.{Dict}
use seedstone.Log.Effect.{Effect, and_then}
use seedstone.Sweep.{ExpiryPolicy, expire_step, sample_oldest}
use seedstone.Shard.State.{ReplicationLog, ShardState, commit}

abbrev pub expire_buckets_per_tick : ℕ
expire_buckets_per_tick = 256

abbrev pub eviction_samples : ℕ
eviction_samples = 5

module _ (sip_hash : ℕ → ℕ → Bytes → ℕ) where
  module _ {L : Type 0} (ops : ReplicationLog L) (shard : ℕ) where
    -- `for key in dead`: whether every record was written, and the state after the last one
    unfoldable pub sweep_keys : List Bytes → ShardState L → Option (Bool × ShardState L)
    sweep_keys [] s = some (true, s)
    sweep_keys (k ∷ rest) s =
        elim (commit ops s shard (Effect.del k) (Dict.remove sip_hash s.dict k).1 true false) [
          | none ↦ none
          | some (true, s1) ↦ sweep_keys rest (record s1 { expired = s1.expired + 1 })
          | some (false, s1) ↦ some (false, s1)
        ]

    abbrev pub swept : ℕ → Bool × ShardState L → ShardState L
    swept next (true, s) = record s { expire_cursor = next }
    swept next (false, s) = s

    unfoldable pub sweep_expired : ShardState L → ℕ → ExpiryPolicy → Option (ShardState L)
    unfolding sweep_keys
    sweep_expired s now expiry =
        and_then (expire_step s.dict s.expire_cursor expire_buckets_per_tick now expiry)
          (λ (found : ℕ × List Bytes).
            and_then (sweep_keys found.1 s)
              (λ (end : Bool × ShardState L). some (swept found.0 end)))

    -- `while policy.must_evict(..)`, on fuel. Other executors move the gauge too, so what it reads
    -- in each round is given; `moves` collects what this executor applies to it, latest first.
    unfoldable pub evict_until_fits :
        ℕ
        → ShardState L
        → (ℕ → ℕ)
        → List (ℕ × ℕ)
        → Option ℕ
        → (ℕ → Option ℕ → Bool)
        → Option Bytes
        → Option (ShardState L × List (ℕ × ℕ))
    evict_until_fits zero s used moves ceiling must_evict spared = none
    evict_until_fits (suc fuel) s used moves ceiling must_evict spared =
        elim (must_evict (used 0) ceiling) [
          | false ↦ some (s, moves)
          | true ↦ elim (sample_oldest s.dict s.evict_cursor eviction_samples spared) [
            | none ↦ none
            | some (cursor, none) ↦ some (record s { evict_cursor = cursor }, moves)
            | some (cursor, some victim) ↦
                elim (commit ops (record s { evict_cursor = cursor }) shard (Effect.del victim)
                  (Dict.remove sip_hash s.dict victim).1 true false) [
                    | none ↦ none
                    | some (false, s1) ↦ some (s1, moves)
                    | some (true, s1) ↦
                        evict_until_fits fuel (record s1 { evicted = s1.evicted + 1 })
                          (λ round. used (suc round))
                          ((s.dict.used_bytes, s1.dict.used_bytes) ∷ moves) ceiling must_evict
                          spared
                  ]
          ]
        ]
