-- ===== src/Shard/Handlers.antt =====
-- The handlers of crates/seedstone-core/src/shard/apply.rs. A handler returns its reply and the state
-- after it; none is the panic of an effect's encoder.
use mathlib.Core.Option
use seedstone.Base.{
  ℕ, ◌==◌, min, Bool, true, false, not, ◌&&◌, Bytes, codes, ℤ, pos, negate, ◌+ℤ◌, is_i64, Option,
  some, none, length, is_some, replicate, Result, err, if◌then◌else◌,
}
use seedstone.Dict
use seedstone.Dict.{Dict}
use seedstone.Dict.Buckets.{Entry}
use seedstone.Sweep.{ExpiryPolicy}
use seedstone.Log.Effect.{Effect, and_then}
use seedstone.Resp.{signed}
use seedstone.Shard.Integer.{parse_i64}
use seedstone.Shard.Command.{Lifetime, ex, px, Cond, nx, xx}
use seedstone.Shard.Reply.{
  Reply, ShardStats, bulk, status, removed, integer, error, not_an_integer, would_overflow,
  log_write_failed,
}
use seedstone.Shard.Clock.{Now, SpanDeadline, lands, passed, i64_max, deadline, deadline_millis}
use seedstone.Shard.State.{ReplicationLog, ShardState, commit}

-- `SetArgs`
pub record SetArgs : Type 0 where
  pub key : Bytes
  pub value : Bytes
  pub expiry : Option Lifetime
  pub cond : Option Cond
  pub keep_ttl : Bool
  pub get : Bool

abbrev pub set_ex : Bytes → Bytes → ℕ → SetArgs
set_ex k value seconds = record {
  key = k;
  value = value;
  expiry = some (ex seconds);
  cond = none;
  keep_ttl = false;
  get = false;
}

abbrev pub set_nx : Bytes → Bytes → SetArgs
set_nx k value = record {
  key = k;
  value = value;
  expiry = none;
  cond = some nx;
  keep_ttl = false;
  get = false;
}

abbrev pub pset_ex : Bytes → Bytes → ℕ → SetArgs
pset_ex k value millis = record {
  key = k;
  value = value;
  expiry = some (px millis);
  cond = none;
  keep_ttl = false;
  get = false;
}

-- what `set` answers where its condition is not met
unfoldable pub unmet : Option Cond → Bool → Option Bytes → Option Reply
unmet none existed old = none
unmet (some nx) existed old = if existed then some (bulk old) else none
unmet (some xx) existed old = if existed then none else some (bulk none)

-- `SETNX` answers the decision of `set` as an integer.
abbrev pub as_integer : Reply → Reply
as_integer Reply.ok = integer (pos 1)
as_integer (bulk none) = integer (pos 0)
as_integer (bulk (some value)) = bulk (some value)
as_integer (status name) = status name
as_integer (removed there) = removed there
as_integer (integer n) = integer n
as_integer (Reply.scan cursor keys visited) = Reply.scan cursor keys visited
as_integer (Reply.stats s) = Reply.stats s
as_integer (error e) = error e

-- `current.checked_add(delta)` on `i64`
unfoldable pub checked_add_i64 : ℤ → ℤ → Option ℤ
checked_add_i64 a b = if is_i64 (a +ℤ b) then some (a +ℤ b) else none

-- the integer and the deadline that an increment starts from: none is no integer
unfoldable pub counter : Option Entry → Option (ℤ × Option ℕ)
unfolding parse_i64
counter none = some (pos 0, none)
counter (some entry) = and_then (parse_i64 entry.value) (λ n. some (n, entry.expires_at))

abbrev pub to_i64 : ℕ → ℤ
to_i64 n = pos (min n i64_max)

abbrev pub expires_of : Option Entry → Option ℕ
expires_of found = and_then found (λ (entry : Entry). entry.expires_at)

abbrev pub value_of : Option Entry → Option Bytes
value_of found = Option.map (λ (entry : Entry). entry.value) found

unfoldable pub keyspace_stats : Dict → ShardStats
keyspace_stats dict = record {
  keys = dict.len;
  expires = dict.with_deadline;
  evicted = 0;
  hits = 0;
  misses = 0;
  expired = 0;
  calls = replicate 23 0;
  usec = replicate 23 0;
}

-- the effect of an expiry that applies, and the keyspace after it
abbrev pub expiry_effect : Now → Bytes → SpanDeadline → Effect
expiry_effect now k passed = Effect.del k
expiry_effect now k (lands due) = Effect.deadline k (deadline_millis now due)

module _ (sip_hash : ℕ → ℕ → Bytes → ℕ) where
  -- the insert of a write and the stamp after it
  unfoldable pub stored : Dict → Bytes → Bytes → Option ℕ → Dict
  stored d k value expires_at =
      Dict.touch sip_hash
        (Dict.insert sip_hash d k (record { value = value; expires_at = expires_at; touched = 0 }))
        k

  abbrev pub type_name : Dict → Bytes → Bytes
  type_name d k = if is_some (Dict.get sip_hash d k) then codes "string" else codes "none"

  abbrev pub value_len : Dict → Bytes → ℤ
  value_len d k = elim (Dict.get sip_hash d k) [
    | none ↦ pos 0
    | some entry ↦ to_i64 (length entry.value)
  ]

  abbrev pub ttl_reply : Dict → Bytes → ℕ → (ℕ → ℕ → ℤ) → Reply
  ttl_reply d k now remaining = elim (Dict.get sip_hash d k) [
    | none ↦ integer (negate 2)
    | some entry ↦ elim entry.expires_at [
      | none ↦ integer (negate 1)
      | some at ↦ integer (remaining at now)
    ]
  ]

  unfoldable pub is_due : Dict → Bytes → ℕ → ExpiryPolicy → Bool
  is_due d k now expiry =
      if not d.may_hold_deadlines && not expiry.takes_undated
      then false
      else elim (Dict.get sip_hash d k) [
        | none ↦ false
        | some entry ↦ expiry.due_on_read entry.expires_at now
      ]

  unfoldable pub remove_if_expired : Dict → Bytes → ℕ → ExpiryPolicy → Bool × Dict
  unfolding is_due
  remove_if_expired d k now expiry =
      if is_due d k now expiry then (true, (Dict.remove sip_hash d k).1) else (false, d)

  abbrev pub expiry_dict : Dict → Bytes → SpanDeadline → Dict
  expiry_dict d k passed = (Dict.remove sip_hash d k).1
  expiry_dict d k (lands due) = (Dict.set_deadline sip_hash d k due).1

  module _ {L : Type 0} (ops : ReplicationLog L) where
    unfoldable pub set : ℕ → ShardState L → ℕ → Now → SetArgs → Option (Reply × ShardState L)
    unfolding unmet stored deadline
    set latest s shard now args =
        let found = Dict.get sip_hash s.dict args.key in
        let old = if args.get then value_of found else none in
        let expires_at =
          if args.keep_ttl then expires_of found else deadline latest now.instant args.expiry in
        elim (unmet args.cond (is_some found) old) [
          | some reply ↦ some (reply, s)
          | none ↦
              commit ops s shard (Effect.put args.key args.value (deadline_millis now expires_at))
                (stored s.dict args.key args.value expires_at)
                (if args.get then bulk old else Reply.ok) (error log_write_failed)
        ]

    unfoldable pub set_nx_of :
        ℕ → ShardState L → ℕ → Now → Bytes → Bytes → Option (Reply × ShardState L)
    unfolding set
    set_nx_of latest s shard now k value =
        Option.map (λ (p : Reply × ShardState L). (as_integer p.0, p.1))
          (set latest s shard now (set_nx k value))

    unfoldable pub del : ShardState L → ℕ → Bytes → Option (Reply × ShardState L)
    del s shard k =
        if is_some (Dict.get sip_hash s.dict k)
        then commit ops s shard (Effect.del k) (Dict.remove sip_hash s.dict k).1 (removed true)
            (error log_write_failed)
        else some (removed false, s)

    unfoldable pub incr_by : ShardState L → ℕ → Now → Bytes → ℤ → Option (Reply × ShardState L)
    unfolding counter stored checked_add_i64
    incr_by s shard now k delta = elim (counter (Dict.get sip_hash s.dict k)) [
      | none ↦ some (error not_an_integer, s)
      | some (current, expires_at) ↦ elim (checked_add_i64 current delta) [
        | none ↦ some (error would_overflow, s)
        | some next ↦
            commit ops s shard (Effect.put k (signed next) (deadline_millis now expires_at))
              (stored s.dict k (signed next) expires_at) (integer next) (error log_write_failed)
      ]
    ]

    unfoldable pub set_expiry :
        ShardState L → ℕ → Now → Bytes → SpanDeadline → Option (Reply × ShardState L)
    set_expiry s shard now k at =
        if is_some (Dict.get sip_hash s.dict k)
        then commit ops s shard (expiry_effect now k at) (expiry_dict s.dict k at) (integer (pos 1))
            (error log_write_failed)
        else some (integer (pos 0), s)

    unfoldable pub persist : ShardState L → ℕ → Bytes → Option (Reply × ShardState L)
    persist s shard k =
        if is_some (expires_of (Dict.get sip_hash s.dict k))
        then commit ops s shard (Effect.deadline k none)
            (Dict.set_deadline sip_hash s.dict k none).1 (integer (pos 1)) (error log_write_failed)
        else some (integer (pos 0), s)

    unfoldable pub flush_db : ShardState L → ℕ → Option (Reply × ShardState L)
    flush_db s shard =
        if s.dict.len == 0
        then some (Reply.ok, s)
        else commit ops s shard Effect.flush (Dict.clear s.dict) Reply.ok (error log_write_failed)

    unfoldable pub evict_if_expired :
        ShardState L → ℕ → Bytes → ℕ → ExpiryPolicy → Option (Result Bool Reply × ShardState L)
    unfolding is_due
    evict_if_expired s shard k now expiry =
        if is_due s.dict k now expiry
        then commit ops s shard (Effect.del k) (Dict.remove sip_hash s.dict k).1 (Result.ok true)
            (err (error log_write_failed))
        else some (Result.ok false, s)
