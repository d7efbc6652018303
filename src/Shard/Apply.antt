-- ===== src/Shard/Apply.antt =====
-- `apply` of crates/seedstone-core/src/shard/apply.rs.
use mathlib.Core.Option
use seedstone.Base.{
  ℕ, ◌+◌, Bool, Bytes, pos, Option, some, is_some, to_nat, Result, err, if◌then◌else◌,
}
use seedstone.Dict
use seedstone.Dict.{Dict}
use seedstone.Walk.{WalkOrder}
use seedstone.Sweep.{ExpiryPolicy}
use seedstone.Log.Effect.{and_then}
use seedstone.Shard.Command.{Command, ex, px, Route, route, key, every, unaddressed}
use seedstone.Shard.Reply.{Reply, bulk, status, integer}
use seedstone.Shard.Clock.{Now, span_deadline, remaining_seconds, remaining_millis}
use seedstone.Shard.State.{ReplicationLog, ShardState}
use seedstone.Shard.Scan.{scan_step}
use seedstone.Shard.Handlers.{
  set_ex, pset_ex, value_of, to_i64, keyspace_stats, ttl_reply, type_name, value_len,
  remove_if_expired, set, set_nx_of, del, incr_by, set_expiry, persist, flush_db, evict_if_expired,
}

module _ (sip_hash : ℕ → ℕ → Bytes → ℕ) (latest : ℕ) {L : Type 0} (ops : ReplicationLog L) where
  module _ (order : WalkOrder) (expiry : ExpiryPolicy) where
    -- the match of `apply`
    unfoldable pub dispatch : ShardState L → ℕ → Now → Command → Option (Reply × ShardState L)
    unfolding set set_nx_of del incr_by set_expiry persist flush_db scan_step span_deadline
        keyspace_stats
    dispatch s shard now (Command.get k) =
        let d = Dict.touch sip_hash s.dict k in
        some (bulk (value_of (Dict.get sip_hash d k)), record s { dict = d })
    dispatch s shard now (Command.set k value life cond keep_ttl old) =
        set sip_hash ops latest s shard now (record {
          key = k;
          value = value;
          expiry = life;
          cond = cond;
          keep_ttl = keep_ttl;
          get = old;
        })
    dispatch s shard now (Command.set_ex k seconds value) =
        set sip_hash ops latest s shard now (set_ex k value seconds)
    dispatch s shard now (Command.set_nx k value) =
        set_nx_of sip_hash ops latest s shard now k value
    dispatch s shard now (Command.pset_ex k millis value) =
        set sip_hash ops latest s shard now (pset_ex k value millis)
    dispatch s shard now (Command.del k) = del sip_hash ops s shard k
    dispatch s shard now (Command.incr_by k delta) = incr_by sip_hash ops s shard now k delta
    dispatch s shard now (Command.expire k seconds) =
        set_expiry sip_hash ops s shard now k (span_deadline latest now.instant seconds ex)
    dispatch s shard now (Command.pexpire k millis) =
        set_expiry sip_hash ops s shard now k (span_deadline latest now.instant millis px)
    dispatch s shard now (Command.expire_at k millis) =
        set_expiry sip_hash ops s shard now k (span_deadline latest now.instant millis px)
    dispatch s shard now (Command.pexpire_at k millis) =
        set_expiry sip_hash ops s shard now k (span_deadline latest now.instant millis px)
    dispatch s shard now (Command.ttl k) =
        some (ttl_reply sip_hash s.dict k now.instant remaining_seconds, s)
    dispatch s shard now (Command.pttl k) =
        some (ttl_reply sip_hash s.dict k now.instant remaining_millis, s)
    dispatch s shard now (Command.persist k) = persist sip_hash ops s shard k
    dispatch s shard now (Command.exists k) =
        some (integer (pos (to_nat (is_some (Dict.get sip_hash s.dict k)))), s)
    dispatch s shard now (Command.type_of k) = some (status (type_name sip_hash s.dict k), s)
    dispatch s shard now (Command.str_len k) =
        let d = Dict.touch sip_hash s.dict k in
        some (integer (value_len sip_hash d k), record s { dict = d })
    dispatch s shard now Command.flush_db = flush_db sip_hash ops s shard
    dispatch s shard now Command.db_size = some (integer (to_i64 s.dict.len), s)
    dispatch s shard now (Command.scan_step cursor count pattern) =
        Option.map (λ (reply : Reply). (reply, s))
          (scan_step order expiry s.dict cursor count pattern now.instant)
    dispatch s shard now Command.stats = some (Reply.stats (keyspace_stats s.dict), s)
    dispatch s shard now (Command.snapshot wait) = some (Reply.ok, s)

    -- the lazy expiry in front of the match
    unfoldable pub reclaim :
        ShardState L → ℕ → Bytes → ℕ → Option (Result Bool Reply × ShardState L)
    unfolding remove_if_expired evict_if_expired
    reclaim s shard k now =
        if s.refusing
        then (let (reclaimed, d) = remove_if_expired sip_hash s.dict k now expiry in
            some (Result.ok reclaimed, record s { dict = d }))
        else evict_if_expired sip_hash ops s shard k now expiry

    unfoldable pub after_reclaim :
        ℕ → Command → Now → Result Bool Reply → ShardState L → Option (Reply × ShardState L)
    unfolding dispatch
    after_reclaim shard cmd now (err failed) s = some (failed, s)
    after_reclaim shard cmd now (Result.ok reclaimed) s =
        dispatch (record s { expired = s.expired + to_nat reclaimed }) shard now cmd

    -- `if let Route::Key(key) = cmd.route()`, and the match after it
    unfoldable pub routed : ShardState L → ℕ → Now → Command → Route → Option (Reply × ShardState L)
    unfolding reclaim after_reclaim
    routed s shard now cmd (key k) =
        and_then (reclaim s shard k now.instant)
          (λ (p : Result Bool Reply × ShardState L). after_reclaim shard cmd now p.0 p.1)
    routed s shard now cmd (Route.shard index) = dispatch s shard now cmd
    routed s shard now cmd every = dispatch s shard now cmd
    routed s shard now cmd unaddressed = dispatch s shard now cmd

    unfoldable pub apply : ShardState L → ℕ → Now → Command → Option (Reply × ShardState L)
    unfolding routed
    apply s shard now cmd = routed s shard now cmd (route cmd)
