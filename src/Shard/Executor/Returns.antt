-- ===== src/Shard/Executor/Returns.antt =====
-- The answer to one command, of crates/seedstone-core/src/shard/executor.rs: `answer` returns, its
-- eviction included.
use seedstone.Base.{
  ℕ, suc, ◌+◌, ◌-◌, ◌/◌, min, Bytes, Option, some, List, ◌∷◌, ◌≡◌, refl, sym, subst, arith, Bool,
  true, not, ◌&&◌, ◌==◌, Bool-cases, inl, inr, ◌⊎◌,
}
use seedstone.Dict
use seedstone.Dict.{Dict}
use seedstone.Log.Effect.{Effect}
use seedstone.Dict.Growth.{IsSound}
use seedstone.Sweep.{deadlines}
use seedstone.Memory.{MemoryLimit, exceeded}
use seedstone.Shard.Clock.{Now, u64_max}
use seedstone.Shard.Command.{
  Command, Route, route, key, every, unaddressed, writes_the_log, denied_when_full,
}
use seedstone.Shard.Reply.{Reply, error, log_write_failed, out_of_memory}
use seedstone.Shard.State.{LogRecord, ReplicationLog, ShardState, append, commit}
use seedstone.Shard.Counters.{stats_of, count_call}
use seedstone.Shard.Handlers.{flush_db}
use seedstone.Shard.Apply.{dispatch, routed, apply}
use seedstone.Shard.Executor.{
  ShardPolicy, Mode, Serving, is_refusing, is_stats, is_no_eviction, spared_key, one_more_refused,
  make_fit, handle, answer_with, answer,
}
use seedstone.Shard.Logged.{IsLog}
use seedstone.Shard.Meaning.Writes.{IsWritable, EffectIsWritable, payload_of-some}
use seedstone.Shard.Meaning.Commands.{ValueIsWritable}
use seedstone.Shard.Meaning.Applied.{apply_lem}
use seedstone.Shard.Executor.Removed.{IsEvictable}
use seedstone.Shard.Executor.Evicted.{evict_until_fits_lem}

-- A command that the log can write: its key and its value are shorter than 2^32 bytes. A step of
-- SCAN is none.
abbrev pub IsServable : Command → Route → Type 0
IsServable cmd (key k) = IsWritable k × ValueIsWritable cmd
IsServable cmd (Route.shard index) = ⊥
IsServable cmd every = Unit {0}
IsServable cmd unaddressed = ⊥

-- A call that returns a result.
abbrev pub Yields : {A : Type 0} → Option A → Type 0
Yields {A} o = (a : A) × (o ≡ some a)

commit-Yields :
    {L A : Type 0} (ops : ReplicationLog L) (s : ShardState L) (shard : ℕ) (e : Effect) (d : Dict)
    (answered failed : A)
    → EffectIsWritable e
    → Yields (commit ops s shard e d answered failed)
unfolding commit append
commit-Yields ops s shard e d answered failed short =
    let (payload, p) = payload_of-some ops e short in
    let r : LogRecord = record { shard = shard; seq = s.seq; payload = payload } in
    let log = (ops.append s.log r).1 in
    elim (Bool-cases (ops.append s.log r).0) [
      | inl accepts ↦
          ((answered, record s { log = log; seq = s.seq + 1; dict = d }), rw (p, accepts) refl)
      | inr refuses ↦ ((failed, record s { log = log }), rw (p, refuses) refl)
    ]

module _ (sip_hash : ℕ → ℕ → Bytes → ℕ) (latest : ℕ) {L : Type 0} (ops : ReplicationLog L)
    (log : IsLog ops) (policy : ShardPolicy) (limit : MemoryLimit) (acks : Bool) (now : Now)
    (production : policy.expiry ≡ deadlines) where
  flush-Yields : (s : ShardState L) (shard : ℕ) → Yields (flush_db sip_hash ops s shard)
  unfolding flush_db
  flush-Yields s shard = elim (Bool-cases (s.dict.len == 0)) [
    | inl empty ↦ ((Reply.ok, s), rw empty refl)
    | inr filled ↦ rw filled (
        commit-Yields ops s shard Effect.flush (Dict.clear s.dict) Reply.ok (error log_write_failed)
          tt)
  ]

  keyed-Yields :
      (s : ShardState L) (shard : ℕ) (cmd : Command) (k : Bytes)
      → IsSound sip_hash s.dict
      → route cmd ≡ key k
      → IsWritable k × ValueIsWritable cmd
      → Yields (apply sip_hash latest ops policy.order deadlines s shard now cmd)
  keyed-Yields s shard cmd k sound at (short, fits) =
      let (reply, s', run, same) =
        apply_lem sip_hash latest now ops shard policy.order s cmd k sound at short fits in
      ((reply, s'), run)

  apply-Yields :
      (s : ShardState L) (shard : ℕ) (cmd : Command)
      → IsSound sip_hash s.dict
      → IsServable cmd (route cmd)
      → Yields (apply sip_hash latest ops policy.order deadlines s shard now cmd)
  unfolding apply routed dispatch
  apply-Yields s shard (Command.get k) sound h = keyed-Yields s shard (Command.get k) k sound refl h
  apply-Yields s shard (Command.set k v life cond keep old) sound h =
      keyed-Yields s shard (Command.set k v life cond keep old) k sound refl h
  apply-Yields s shard (Command.set_ex k n v) sound h =
      keyed-Yields s shard (Command.set_ex k n v) k sound refl h
  apply-Yields s shard (Command.set_nx k v) sound h =
      keyed-Yields s shard (Command.set_nx k v) k sound refl h
  apply-Yields s shard (Command.pset_ex k n v) sound h =
      keyed-Yields s shard (Command.pset_ex k n v) k sound refl h
  apply-Yields s shard (Command.pttl k) sound h =
      keyed-Yields s shard (Command.pttl k) k sound refl h
  apply-Yields s shard (Command.expire_at k n) sound h =
      keyed-Yields s shard (Command.expire_at k n) k sound refl h
  apply-Yields s shard (Command.pexpire_at k n) sound h =
      keyed-Yields s shard (Command.pexpire_at k n) k sound refl h
  apply-Yields s shard (Command.del k) sound h = keyed-Yields s shard (Command.del k) k sound refl h
  apply-Yields s shard (Command.incr_by k n) sound h =
      keyed-Yields s shard (Command.incr_by k n) k sound refl h
  apply-Yields s shard (Command.expire k n) sound h =
      keyed-Yields s shard (Command.expire k n) k sound refl h
  apply-Yields s shard (Command.pexpire k n) sound h =
      keyed-Yields s shard (Command.pexpire k n) k sound refl h
  apply-Yields s shard (Command.ttl k) sound h = keyed-Yields s shard (Command.ttl k) k sound refl h
  apply-Yields s shard (Command.persist k) sound h =
      keyed-Yields s shard (Command.persist k) k sound refl h
  apply-Yields s shard (Command.exists k) sound h =
      keyed-Yields s shard (Command.exists k) k sound refl h
  apply-Yields s shard (Command.type_of k) sound h =
      keyed-Yields s shard (Command.type_of k) k sound refl h
  apply-Yields s shard (Command.str_len k) sound h =
      keyed-Yields s shard (Command.str_len k) k sound refl h
  apply-Yields s shard Command.flush_db sound h = flush-Yields s shard
  apply-Yields s shard Command.db_size sound h = (_, refl)
  apply-Yields s shard (Command.scan_step cursor count pattern) sound h = elim h [ ]
  apply-Yields s shard Command.stats sound h = (_, refl)
  apply-Yields s shard (Command.snapshot wait) sound h = (_, refl)

  -- Nothing is ever evicted, or an eviction after the command finds a shard that it can work on.
  abbrev pub HasRoom : ShardState L → ℕ → Command → Type 0
  HasRoom s shard cmd =
      (is_no_eviction limit.mode ≡ true)
      ⊎ ((reply : Reply) (t : ShardState L)
          → apply sip_hash latest ops policy.order policy.expiry s shard now cmd ≡ some (reply, t)
          → IsEvictable sip_hash t)

  make_fit-Yields :
      (shard : ℕ) (cmd : Command) (s : ShardState L) (used : ℕ → ℕ) (moves : List (ℕ × ℕ))
      (mode : Mode)
      → (is_no_eviction limit.mode ≡ true) ⊎ IsEvictable sip_hash s
      → Yields (make_fit sip_hash latest ops policy limit acks shard cmd s used moves mode)
  unfolding make_fit
  make_fit-Yields shard cmd s used moves mode (inl never) = ((s, moves), rw never refl)
  make_fit-Yields shard cmd s used moves mode (inr evictable) =
      elim (Bool-cases (not (is_no_eviction limit.mode) && not (is_refusing mode))) [
        | inl evicts ↦
            let (s', moves', ran, done) =
              evict_until_fits_lem sip_hash ops shard limit.ceiling policy.must_evict
                (spared_key (route cmd)) (suc s.dict.len) s used moves evictable (omega arith) in
            ((s', moves'), rw evicts ran)
        | inr stands ↦ ((s, moves), rw stands refl)
      ]

  handle-Yields :
      (v : Serving L) (shard : ℕ) (cmd : Command) (used : ℕ → ℕ)
      → IsSound sip_hash v.state.dict
      → IsServable cmd (route cmd)
      → HasRoom v.state shard cmd
      → Yields (handle sip_hash latest ops policy limit acks v shard cmd used now)
  unfolding handle
  handle-Yields v shard cmd used sound h room =
      let ((reply, s), run) : Yields
          (apply sip_hash latest ops policy.order policy.expiry v.state shard now cmd) =
        subst (λ x. Yields (apply sip_hash latest ops policy.order x v.state shard now cmd))
          (sym production) (apply-Yields v.state shard cmd sound h) in
      let ((t, moves), fit) =
        make_fit-Yields shard cmd s used ((v.state.dict.used_bytes, s.dict.used_bytes) ∷ v.moves)
          v.mode (elim room [ inl never ↦ inl never | inr after ↦ inr (after reply s run) ]) in
      ((reply, record { state = t; moves = moves; mode = v.mode }), rw (run, fit) refl)

  answer_with-Yields :
      (v : Serving L) (shard : ℕ) (cmd : Command) (used : ℕ → ℕ)
      → IsSound sip_hash v.state.dict
      → IsServable cmd (route cmd)
      → HasRoom v.state shard cmd
      → Yields (answer_with sip_hash latest ops policy limit acks v shard cmd used now)
  unfolding answer_with
  answer_with-Yields v shard cmd used sound h room = elim (Bool-cases (is_stats cmd)) [
    | inl e ↦ ((Reply.stats (stats_of v.state), v), rw e refl)
    | inr e ↦ elim (Bool-cases (is_refusing v.mode && writes_the_log cmd && not acks)) [
      | inl refused ↦ (
        (error log_write_failed, record v { mode = one_more_refused v.mode }),
        rw (e, refused) refl,
      )
      | inr taken ↦
          elim (Bool-cases
            (is_no_eviction limit.mode && denied_when_full cmd && exceeded limit (used 0))) [
              | inl full ↦ ((error out_of_memory, v), rw (e, taken, full) refl)
              | inr fits ↦
                  let (given, run) = handle-Yields v shard cmd used sound h room in
                  (given, rw (e, taken, fits) run)
            ]
    ]
  ]

  pub answer-Yields :
      (v : Serving L) (shard : ℕ) (cmd : Command) (used : ℕ → ℕ) (last after : ℕ)
      → IsSound sip_hash v.state.dict
      → IsServable cmd (route cmd)
      → HasRoom v.state shard cmd
      → Yields (answer sip_hash latest ops policy limit acks v shard cmd used now last after)
  unfolding answer
  answer-Yields v shard cmd used last after sound h room =
      let (given, run) = answer_with-Yields v shard cmd used sound h room in
      let spent = min ((after - last) / 1000) u64_max in
      (
        (
          given.0,
          not (given.1.state.seq == v.state.seq),
          record given.1 { state = count_call sip_hash given.1.state cmd given.0 spent },
        ),
        rw run refl,
      )
