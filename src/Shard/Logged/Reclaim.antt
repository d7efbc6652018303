-- ===== src/Shard/Logged/Reclaim.antt =====
-- The sweep and the eviction of crates/seedstone-core/src/shard/executor.rs log the removals that
-- they make.
use seedstone.Base.{
  ℕ, zero, suc, ◌+◌, Bytes, Option, none, some, List, [], ◌∷◌, ◌≡◌, refl, subst, some-inj,
  none≢some, Bool, true, false, Bool-cases, Option-cases, inl, inr,
}
use seedstone.Dict
use seedstone.Dict.{Dict}
use seedstone.Dict.Growth.{IsSound}
use seedstone.Log.Effect.{Effect}
use seedstone.Sweep.{ExpiryPolicy, expire_step, sample_oldest}
use seedstone.Shard.Clock.{Now}
use seedstone.Shard.State.{ReplicationLog, ShardState, commit}
use seedstone.Shard.Reclaim.{
  sweep_keys, swept, sweep_expired, evict_until_fits, expire_buckets_per_tick, eviction_samples,
}
use seedstone.Shard.Logged.{IsLog, IsLogged-quiet, IsLogged-trans}
use seedstone.Shard.Logged.Keyspace.{remove-IsAfter}
use seedstone.Shard.Logged.Handlers.{Logged, stays-Logged, change-Logged}

module _ (sip_hash : ℕ → ℕ → Bytes → ℕ) (now : Now) {L : Type 0} (ops : ReplicationLog L)
    (log : IsLog ops) (shard : ℕ) where
  -- A change of the fields that are no part of the keyspace or the log.
  pub counted-Logged :
      (s t u : ShardState L)
      → Logged sip_hash now ops log shard s t
      → t.dict ≡ u.dict
      → u.log ≡ t.log
      → u.seq ≡ t.seq
      → u.refusing ≡ t.refusing
      → Logged sip_hash now ops log shard s u
  counted-Logged s t u first dict_same log_same seq_same refusing_same =
      let (es, rs, logs) = first in
      IsLogged-trans sip_hash now ops log shard s t u first (
        IsLogged-quiet sip_hash now ops log shard t u
          (subst (λ d. IsSound sip_hash d) dict_same logs.sound) (λ q. rw dict_same) log_same
          seq_same refusing_same)

  pub rest-Logged :
      (s : ShardState L) → IsSound sip_hash s.dict → Logged sip_hash now ops log shard s s
  rest-Logged s sound = stays-Logged {0} sip_hash now ops log shard s tt tt s sound refl

  moved-Logged :
      (s : ShardState L) (cursor : ℕ)
      → IsSound sip_hash s.dict
      → Logged sip_hash now ops log shard s (record s { evict_cursor = cursor })
  moved-Logged s cursor sound =
      counted-Logged s s (record s { evict_cursor = cursor }) (rest-Logged s sound) refl refl refl
        refl

  removal-Logged :
      (s : ShardState L) (k : Bytes) (b : Bool) (s1 : ShardState L)
      → IsSound sip_hash s.dict
      → commit ops s shard (Effect.del k) (Dict.remove sip_hash s.dict k).1 true false
        ≡ some (b, s1)
      → Logged sip_hash now ops log shard s s1
  removal-Logged s k b s1 sound h =
      change-Logged sip_hash now ops log shard s (Effect.del k) (Dict.remove sip_hash s.dict k).1
        true false b s1 sound (remove-IsAfter sip_hash now s.dict k sound) h

  sweep_keys-Logged :
      (dead : List Bytes) (s : ShardState L) (b : Bool) (s' : ShardState L)
      → IsSound sip_hash s.dict
      → sweep_keys sip_hash ops shard dead s ≡ some (b, s')
      → Logged sip_hash now ops log shard s s'
  unfolding sweep_keys
  sweep_keys-Logged [] s b s' sound h = stays-Logged sip_hash now ops log shard s true b s' sound h
  sweep_keys-Logged (k ∷ rest) s b s' sound h =
      elim (Option-cases
        (commit ops s shard (Effect.del k) (Dict.remove sip_hash s.dict k).1 true false)) [
          | inl panic ↦ absurd (none≢some (rw (panic, sweep_keys) at h))
          | inr ((true, s1), done) ↦
              let removed = removal-Logged s k true s1 sound done in
              let (es, rs, logs) = removed in
              let s2 = record s1 { expired = s1.expired + 1 } in
              IsLogged-trans sip_hash now ops log shard s s2 s'
                (counted-Logged s s1 s2 removed refl refl refl refl)
                (sweep_keys-Logged rest s2 b s' logs.sound (rw (done, sweep_keys) at h))
          | inr ((false, s1), done) ↦
              let same : s1 ≡ s' = (let found = rw (done, sweep_keys) at h in cc) in
              subst (λ t. Logged sip_hash now ops log shard s t) same
                (removal-Logged s k false s1 sound done)
        ]

  swept-Logged :
      (s : ShardState L) (next : ℕ) (b : Bool) (t : ShardState L)
      → Logged sip_hash now ops log shard s t
      → Logged sip_hash now ops log shard s (swept sip_hash ops shard next (b, t))
  swept-Logged s next true t h =
      counted-Logged s t (record t { expire_cursor = next }) h refl refl refl refl
  swept-Logged s next false t h = h

  -- A sweep of expired keys from a sound keyspace that does not panic leaves one that is sound,
  -- and what the effects in its new records make of what the shard held is what it holds, also
  -- where the log refuses a record in the middle of the sweep.
  pub sweep_expired-Logged :
      (s : ShardState L) (at : ℕ) (expiry : ExpiryPolicy) (s' : ShardState L)
      → IsSound sip_hash s.dict
      → sweep_expired sip_hash ops shard s at expiry ≡ some s'
      → Logged sip_hash now ops log shard s s'
  unfolding sweep_expired
  sweep_expired-Logged s at expiry s' sound h =
      elim (Option-cases (expire_step s.dict s.expire_cursor expire_buckets_per_tick at expiry)) [
        | inl stuck ↦ absurd (none≢some (rw (stuck, sweep_expired) at h))
        | inr ((next, dead), found) ↦ elim (Option-cases (sweep_keys sip_hash ops shard dead s)) [
          | inl panic ↦ absurd (none≢some (rw (found, panic, sweep_expired) at h))
          | inr ((b, t), done) ↦
              subst (λ u. Logged sip_hash now ops log shard s u)
                (some-inj (rw (found, done, sweep_expired) at h))
                (swept-Logged s next b t (sweep_keys-Logged dead s b t sound done))
        ]
      ]

  pub evict-Logged :
      (fuel : ℕ) (s : ShardState L) (used : ℕ → ℕ) (moves : List (ℕ × ℕ)) (ceiling : Option ℕ)
      (must_evict : ℕ → Option ℕ → Bool) (spared : Option Bytes) (s' : ShardState L)
      (moves' : List (ℕ × ℕ))
      → IsSound sip_hash s.dict
      → evict_until_fits sip_hash ops shard fuel s used moves ceiling must_evict spared
        ≡ some (s', moves')
      → Logged sip_hash now ops log shard s s'
  unfolding evict_until_fits
  evict-Logged zero s used moves ceiling must_evict spared s' moves' sound h = absurd (none≢some h)
  evict-Logged (suc fuel) s used moves ceiling must_evict spared s' moves' sound h =
      elim (Bool-cases (must_evict (used 0) ceiling)) [
        | inr fits ↦
            let same : s ≡ s' = (let found = rw (fits, evict_until_fits) at h in cc) in
            subst (λ t. Logged sip_hash now ops log shard s t) same (rest-Logged s sound)
        | inl over ↦
            elim (Option-cases (sample_oldest s.dict s.evict_cursor eviction_samples spared)) [
              | inl stuck ↦ absurd (none≢some (rw (over, stuck, evict_until_fits) at h))
              | inr ((cursor, none), sampled) ↦
                  let same : record s { evict_cursor = cursor } ≡ s' =
                    (let found = rw (over, sampled, evict_until_fits) at h in cc) in
                  subst (λ t. Logged sip_hash now ops log shard s t) same
                    (moved-Logged s cursor sound)
              | inr ((cursor, some victim), sampled) ↦
                  let s0 = record s { evict_cursor = cursor } in
                  elim (Option-cases (
                    commit ops s0 shard (Effect.del victim) (Dict.remove sip_hash s.dict victim).1
                      true false)) [
                        | inl panic ↦
                            absurd (none≢some (rw (over, sampled, panic, evict_until_fits) at h))
                        | inr ((false, s1), done) ↦
                            let same : s1 ≡ s' =
                              (let found = rw (over, sampled, done, evict_until_fits) at h in cc) in
                            subst (λ t. Logged sip_hash now ops log shard s t) same
                              (IsLogged-trans sip_hash now ops log shard s s0 s1
                                (moved-Logged s cursor sound)
                                (removal-Logged s0 victim false s1 sound done))
                        | inr ((true, s1), done) ↦
                            let removed = removal-Logged s0 victim true s1 sound done in
                            let (es, rs, logs) = removed in
                            let s2 = record s1 { evicted = s1.evicted + 1 } in
                            IsLogged-trans sip_hash now ops log shard s s2 s'
                              (IsLogged-trans sip_hash now ops log shard s s0 s2
                                (moved-Logged s cursor sound)
                                (counted-Logged s0 s1 s2 removed refl refl refl refl))
                              (evict-Logged fuel s2 (λ round. used (suc round))
                                ((s.dict.used_bytes, s1.dict.used_bytes) ∷ moves) ceiling must_evict
                                spared s' moves' logs.sound
                                (rw (over, sampled, done, evict_until_fits) at h))
                      ]
            ]
      ]
