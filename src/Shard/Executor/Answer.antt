-- ===== src/Shard/Executor/Answer.antt =====
-- The answer to one command: the shard logs what it changes.
use seedstone.Base.{
  ℕ, suc, ◌+◌, ◌-◌, ◌/◌, min, Bytes, Option, none, some, ◌≡◌, refl, subst, none≢some, Bool, true,
  false, not, ◌&&◌, List, ◌∷◌, Bool-cases, Option-cases, inl, inr,
}
use seedstone.Dict.Growth.{IsSound}
use seedstone.Memory.{MemoryLimit, exceeded}
use seedstone.Shard.Clock.{Now, u64_max}
use seedstone.Shard.Command.{Command, route, kind, writes_the_log, denied_when_full}
use seedstone.Shard.Reply.{Reply}
use seedstone.Shard.State.{ReplicationLog, ShardState}
use seedstone.Shard.Apply.{apply}
use seedstone.Shard.Counters.{add_at, count_call, counted_outcome, reaches_every, read_outcome}
use seedstone.Shard.Executor.{
  ShardPolicy, Mode, Serving, is_refusing, is_stats, is_no_eviction, spared_key, make_fit, handle,
  answer_with, answer,
}
use seedstone.Shard.Logged.{IsLog, IsLogged-trans}
use seedstone.Shard.Logged.Handlers.{Logged}
use seedstone.Shard.Logged.Commands.{apply-Logged}
use seedstone.Shard.Logged.Reclaim.{counted-Logged, rest-Logged, evict-Logged}

module _ (sip_hash : ℕ → ℕ → Bytes → ℕ) (latest : ℕ) {L : Type 0} (ops : ReplicationLog L)
    (log : IsLog ops) (policy : ShardPolicy) (limit : MemoryLimit) (acks : Bool) (now : Now) where
  module _ (shard : ℕ) where
    abbrev Changes : ShardState L → ShardState L → Type 0
    Changes = Logged sip_hash now ops log shard

    make_fit-Logged :
        (cmd : Command) (s : ShardState L) (used : ℕ → ℕ) (moves : List (ℕ × ℕ)) (mode : Mode)
        (s' : ShardState L) (moves' : List (ℕ × ℕ))
        → IsSound sip_hash s.dict
        → make_fit sip_hash latest ops policy limit acks shard cmd s used moves mode
          ≡ some (s', moves')
        → Changes s s'
    unfolding make_fit
    make_fit-Logged cmd s used moves mode s' moves' sound h =
        elim (Bool-cases (not (is_no_eviction limit.mode) && not (is_refusing mode))) [
          | inl evicts ↦
              evict-Logged sip_hash now ops log shard (suc s.dict.len) s used moves limit.ceiling
                policy.must_evict (spared_key (route cmd)) s' moves' sound
                (rw (evicts, make_fit) at h)
          | inr stands ↦
              let same : s ≡ s' = (let found = rw (stands, make_fit) at h in cc) in
              subst (λ t. Changes s t) same (rest-Logged sip_hash now ops log shard s sound)
        ]

    handle-Logged :
        (v : Serving L) (cmd : Command) (used : ℕ → ℕ) (reply : Reply) (v' : Serving L)
        → IsSound sip_hash v.state.dict
        → v.state.refusing ≡ false
        → handle sip_hash latest ops policy limit acks v shard cmd used now ≡ some (reply, v')
        → Changes v.state v'.state
    unfolding handle
    handle-Logged v cmd used reply v' sound taking h =
        elim (Option-cases
          (apply sip_hash latest ops policy.order policy.expiry v.state shard now cmd)) [
            | inl stuck ↦ absurd (none≢some (rw (stuck, handle) at h))
            | inr ((r, s1), applied) ↦
                let first =
                  apply-Logged sip_hash latest now ops log policy.order policy.expiry shard v.state
                    cmd r s1 sound taking applied in
                let (es, rs, logs) = first in
                let moves = (v.state.dict.used_bytes, s1.dict.used_bytes) ∷ v.moves in
                elim (Option-cases
                  (make_fit sip_hash latest ops policy limit acks shard cmd s1 used moves v.mode)) [
                    | inl stuck ↦ absurd (none≢some (rw (applied, stuck, handle) at h))
                    | inr ((s2, moves2), fit) ↦
                        let found = rw (applied, fit, handle) at h in
                        let same : s2 ≡ v'.state = cc in
                        subst (λ t. Changes v.state t) same
                          (IsLogged-trans sip_hash now ops log shard v.state s1 s2 first
                            (make_fit-Logged cmd s1 used moves v.mode s2 moves2 logs.sound fit))
                  ]
          ]

    answer_with-Logged :
        (v : Serving L) (cmd : Command) (used : ℕ → ℕ) (reply : Reply) (v' : Serving L)
        → IsSound sip_hash v.state.dict
        → v.state.refusing ≡ false
        → answer_with sip_hash latest ops policy limit acks v shard cmd used now ≡ some (reply, v')
        → Changes v.state v'.state
    unfolding answer_with
    answer_with-Logged v cmd used reply v' sound taking h =
        let rest = rest-Logged sip_hash now ops log shard v.state sound in
        elim (Bool-cases (is_stats cmd)) [
          | inl e ↦
              let same : v.state ≡ v'.state = (let found = rw (e, answer_with) at h in cc) in
              subst (λ t. Changes v.state t) same rest
          | inr e ↦ elim (Bool-cases (is_refusing v.mode && writes_the_log cmd && not acks)) [
            | inl refused ↦
                let same : v.state ≡ v'.state =
                  (let found = rw (e, refused, answer_with) at h in cc) in
                subst (λ t. Changes v.state t) same rest
            | inr taken ↦
                elim (Bool-cases
                  (is_no_eviction limit.mode && denied_when_full cmd && exceeded limit (used 0))) [
                    | inl full ↦
                        let same : v.state ≡ v'.state =
                          (let found = rw (e, taken, full, answer_with) at h in cc) in
                        subst (λ t. Changes v.state t) same rest
                    | inr fits ↦
                        handle-Logged v cmd used reply v' sound taking
                          (rw (e, taken, fits, answer_with) at h)
                  ]
          ]
        ]

    outcome-Logged :
        (s t : ShardState L) (o : Option Bool)
        → Changes s t
        → Changes s (counted_outcome sip_hash t o)
    outcome-Logged s t none h = h
    outcome-Logged s t (some true) h =
        counted-Logged sip_hash now ops log shard s t (record t { hits = t.hits + 1 }) h refl refl
          refl refl
    outcome-Logged s t (some false) h =
        counted-Logged sip_hash now ops log shard s t (record t { misses = t.misses + 1 }) h refl
          refl refl refl

    count_call-Logged :
        (s t : ShardState L) (cmd : Command) (reply : Reply) (spent : ℕ)
        → Changes s t
        → Changes s (count_call sip_hash t cmd reply spent)
    unfolding count_call
    count_call-Logged s t cmd reply spent h = elim (Bool-cases (reaches_every (route cmd))) [
      | inl e ↦ rw (count_call, e) (outcome-Logged s t (read_outcome sip_hash t.dict cmd reply) h)
      | inr e ↦
          let called = record t {
            calls = add_at t.calls (kind cmd) 1;
            usec = add_at t.usec (kind cmd) spent;
          } in
          rw (count_call, e)
            (outcome-Logged s called (read_outcome sip_hash t.dict cmd reply)
              (counted-Logged sip_hash now ops log shard s t called h refl refl refl refl))
    ]

    -- The same of `answer`, with the eviction and the counters after the command.
    pub answer-Logged :
        (v : Serving L) (cmd : Command) (used : ℕ → ℕ) (last after : ℕ) (reply : Reply)
        (appended : Bool) (v' : Serving L)
        → IsSound sip_hash v.state.dict
        → v.state.refusing ≡ false
        → answer sip_hash latest ops policy limit acks v shard cmd used now last after
          ≡ some (reply, appended, v')
        → Changes v.state v'.state
    unfolding answer
    answer-Logged v cmd used last after reply appended v' sound taking h =
        elim (Option-cases
          (answer_with sip_hash latest ops policy limit acks v shard cmd used now)) [
            | inl stuck ↦ absurd (none≢some (rw (stuck, answer) at h))
            | inr ((r, w), given) ↦
                let spent = min ((after - last) / 1000) u64_max in
                let same : count_call sip_hash w.state cmd r spent ≡ v'.state =
                  (let found = rw (given, answer) at h in cc) in
                subst (λ t. Changes v.state t) same
                  (count_call-Logged v.state w.state cmd r spent
                    (answer_with-Logged v cmd used r w sound taking given))
          ]
