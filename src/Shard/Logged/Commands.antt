-- ===== src/Shard/Logged/Commands.antt =====
-- `apply` of crates/seedstone-core/src/shard/apply.rs: every command logs the change that it makes.
use seedstone.Base.{
  ℕ, ◌+◌, Bytes, Option, some, Result, ok, err, ◌≡◌, refl, subst, none≢some, Bool, false,
  Option-cases, inl, inr, to_nat, if◌then◌else◌,
}
use seedstone.Dict
use seedstone.Dict.{Dict}
use seedstone.Dict.Growth.{IsSound}
use seedstone.Sweep.{ExpiryPolicy}
use seedstone.Walk.{WalkOrder}
use seedstone.Shard.Clock.{Now, span_deadline}
use seedstone.Shard.Command.{Command, ex, px, Route, route, key, every, unaddressed}
use seedstone.Shard.Reply.{Reply}
use seedstone.Shard.Scan.{scan_step}
use seedstone.Shard.State.{ReplicationLog, ShardState}
use seedstone.Shard.Handlers.{
  set, set_nx, set_ex, pset_ex, set_nx_of, remove_if_expired, evict_if_expired,
}
use seedstone.Shard.Apply.{dispatch, reclaim, after_reclaim, routed, apply}
use seedstone.Shard.Logged.{IsLog, IsLogged-quiet, IsLogged-trans}
use seedstone.Shard.Logged.Keyspace.{touch-held}
use seedstone.Shard.Logged.Handlers.{
  Logged, stays-Logged, set-Logged, del-Logged, incr_by-Logged, set_expiry-Logged, persist-Logged,
  flush_db-Logged, evict_if_expired-Logged,
}

module _ (sip_hash : ℕ → ℕ → Bytes → ℕ) (latest : ℕ) (now : Now) {L : Type 0}
    (ops : ReplicationLog L) (log : IsLog ops) (order : WalkOrder) (expiry : ExpiryPolicy)
    (shard : ℕ) where
  touched-Logged :
      (s : ShardState L) (k : Bytes) (answer reply : Reply) (s' : ShardState L)
      → IsSound sip_hash s.dict
      → ◌≡◌ {A = Option (Reply × ShardState L)}
          (some (answer, record s { dict = Dict.touch sip_hash s.dict k }))
          (some (reply, s'))
      → Logged sip_hash now ops log shard s s'
  touched-Logged s k answer reply s' sound h =
      let same : record s { dict = Dict.touch sip_hash s.dict k } ≡ s' = cc in
      let (sound', view) = touch-held sip_hash now s.dict k sound in
      subst (λ t. Logged sip_hash now ops log shard s t) same
        (IsLogged-quiet sip_hash now ops log shard s
          (record s { dict = Dict.touch sip_hash s.dict k }) sound' view refl refl refl)

  set_nx-Logged :
      (s : ShardState L) (k v : Bytes) (reply : Reply) (s' : ShardState L)
      → IsSound sip_hash s.dict
      → set_nx_of sip_hash ops latest s shard now k v ≡ some (reply, s')
      → Logged sip_hash now ops log shard s s'
  unfolding set_nx_of
  set_nx-Logged s k v reply s' sound h =
      elim (Option-cases (set sip_hash ops latest s shard now (set_nx k v))) [
        | inl panic ↦ absurd (none≢some (rw (panic, set_nx_of) at h))
        | inr ((answer, t), done) ↦
            let found = rw (done, set_nx_of) at h in
            let same : t ≡ s' = cc in
            subst (λ u. Logged sip_hash now ops log shard s u) same
              (set-Logged sip_hash now ops log shard s sound answer t latest (set_nx k v) done)
      ]

  dispatch-Logged :
      (s : ShardState L) (cmd : Command) (reply : Reply) (s' : ShardState L)
      → IsSound sip_hash s.dict
      → dispatch sip_hash latest ops order expiry s shard now cmd ≡ some (reply, s')
      → Logged sip_hash now ops log shard s s'
  unfolding dispatch
  dispatch-Logged s (Command.get k) reply s' sound h = touched-Logged s k _ reply s' sound h
  dispatch-Logged s (Command.set k v life cond keep old) reply s' sound h =
      set-Logged sip_hash now ops log shard s sound reply s' latest _ h
  dispatch-Logged s (Command.set_ex k n v) reply s' sound h =
      set-Logged sip_hash now ops log shard s sound reply s' latest (set_ex k v n) h
  dispatch-Logged s (Command.set_nx k v) reply s' sound h = set_nx-Logged s k v reply s' sound h
  dispatch-Logged s (Command.pset_ex k n v) reply s' sound h =
      set-Logged sip_hash now ops log shard s sound reply s' latest (pset_ex k v n) h
  dispatch-Logged s (Command.del k) reply s' sound h =
      del-Logged sip_hash now ops log shard s sound reply s' k h
  dispatch-Logged s (Command.incr_by k n) reply s' sound h =
      incr_by-Logged sip_hash now ops log shard s sound reply s' k n h
  dispatch-Logged s (Command.expire k n) reply s' sound h =
      set_expiry-Logged sip_hash now ops log shard s sound reply s' k
        (span_deadline latest now.instant n ex) h
  dispatch-Logged s (Command.pexpire k n) reply s' sound h =
      set_expiry-Logged sip_hash now ops log shard s sound reply s' k
        (span_deadline latest now.instant n px) h
  dispatch-Logged s (Command.expire_at k n) reply s' sound h =
      set_expiry-Logged sip_hash now ops log shard s sound reply s' k
        (span_deadline latest now.instant n px) h
  dispatch-Logged s (Command.pexpire_at k n) reply s' sound h =
      set_expiry-Logged sip_hash now ops log shard s sound reply s' k
        (span_deadline latest now.instant n px) h
  dispatch-Logged s (Command.ttl k) reply s' sound h =
      stays-Logged sip_hash now ops log shard s _ reply s' sound h
  dispatch-Logged s (Command.pttl k) reply s' sound h =
      stays-Logged sip_hash now ops log shard s _ reply s' sound h
  dispatch-Logged s (Command.persist k) reply s' sound h =
      persist-Logged sip_hash now ops log shard s sound reply s' k h
  dispatch-Logged s (Command.exists k) reply s' sound h =
      stays-Logged sip_hash now ops log shard s _ reply s' sound h
  dispatch-Logged s (Command.type_of k) reply s' sound h =
      stays-Logged sip_hash now ops log shard s _ reply s' sound h
  dispatch-Logged s (Command.str_len k) reply s' sound h = touched-Logged s k _ reply s' sound h
  dispatch-Logged s Command.flush_db reply s' sound h =
      flush_db-Logged sip_hash now ops log shard s sound reply s' h
  dispatch-Logged s Command.db_size reply s' sound h =
      stays-Logged sip_hash now ops log shard s _ reply s' sound h
  dispatch-Logged s (Command.scan_step cursor count pattern) reply s' sound h =
      elim (Option-cases (scan_step order expiry s.dict cursor count pattern now.instant)) [
        | inl stuck ↦ absurd (none≢some (rw (stuck, dispatch) at h))
        | inr (answer, done) ↦
            stays-Logged sip_hash now ops log shard s answer reply s' sound
              (rw (done, dispatch) at h)
      ]
  dispatch-Logged s Command.stats reply s' sound h =
      stays-Logged sip_hash now ops log shard s _ reply s' sound h
  dispatch-Logged s (Command.snapshot wait) reply s' sound h =
      stays-Logged sip_hash now ops log shard s _ reply s' sound h

  reclaim-Logged :
      (s : ShardState L) (k : Bytes) (r : Result Bool Reply) (s' : ShardState L)
      → IsSound sip_hash s.dict
      → s.refusing ≡ false
      → reclaim sip_hash latest ops order expiry s shard k now.instant ≡ some (r, s')
      → Logged sip_hash now ops log shard s s'
  unfolding reclaim
  reclaim-Logged s k r s' sound taking h =
      let (reclaimed, d) = remove_if_expired sip_hash s.dict k now.instant expiry in
      evict_if_expired-Logged sip_hash now ops log shard s k now.instant expiry r s' sound (
        subst
          (λ (refusing : Bool).
            (if refusing
              then some (ok reclaimed, record s { dict = d })
              else evict_if_expired sip_hash ops s shard k now.instant expiry)
            ≡ some (r, s'))
          taking h)

  after_reclaim-Logged :
      (cmd : Command) (r : Result Bool Reply) (s : ShardState L) (reply : Reply) (s' : ShardState L)
      → IsSound sip_hash s.dict
      → after_reclaim sip_hash latest ops order expiry shard cmd now r s ≡ some (reply, s')
      → Logged sip_hash now ops log shard s s'
  unfolding after_reclaim
  after_reclaim-Logged cmd (err failed) s reply s' sound h =
      stays-Logged sip_hash now ops log shard s failed reply s' sound h
  after_reclaim-Logged cmd (ok reclaimed) s reply s' sound h =
      let counted = record s { expired = s.expired + to_nat reclaimed } in
      IsLogged-trans sip_hash now ops log shard s counted s'
        (IsLogged-quiet sip_hash now ops log shard s counted sound (λ q. refl) refl refl refl)
        (dispatch-Logged counted cmd reply s' sound h)

  routed-Logged :
      (s : ShardState L) (cmd : Command) (r : Route) (reply : Reply) (s' : ShardState L)
      → IsSound sip_hash s.dict
      → s.refusing ≡ false
      → routed sip_hash latest ops order expiry s shard now cmd r ≡ some (reply, s')
      → Logged sip_hash now ops log shard s s'
  unfolding routed
  routed-Logged s cmd (key k) reply s' sound taking h =
      elim (Option-cases (reclaim sip_hash latest ops order expiry s shard k now.instant)) [
        | inl panic ↦ absurd (none≢some (rw (panic, routed) at h))
        | inr ((r, t), done) ↦
            let first = reclaim-Logged s k r t sound taking done in
            let (es, rs, logs) = first in
            IsLogged-trans sip_hash now ops log shard s t s' first
              (after_reclaim-Logged cmd r t reply s' logs.sound (rw (done, routed) at h))
      ]
  routed-Logged s cmd (Route.shard index) reply s' sound taking h =
      dispatch-Logged s cmd reply s' sound h
  routed-Logged s cmd every reply s' sound taking h = dispatch-Logged s cmd reply s' sound h
  routed-Logged s cmd unaddressed reply s' sound taking h = dispatch-Logged s cmd reply s' sound h

  -- What a command does to a shard that does not refuse is what its records say.
  pub apply-Logged :
      (s : ShardState L) (cmd : Command) (reply : Reply) (s' : ShardState L)
      → IsSound sip_hash s.dict
      → s.refusing ≡ false
      → apply sip_hash latest ops order expiry s shard now cmd ≡ some (reply, s')
      → Logged sip_hash now ops log shard s s'
  unfolding apply
  apply-Logged s cmd reply s' sound taking h =
      routed-Logged s cmd (route cmd) reply s' sound taking h
