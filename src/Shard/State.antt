-- ===== src/Shard/State.antt =====
-- `ShardState` of crates/seedstone-core/src/shard/executor.rs, and the log that it holds: the trait
-- `ReplicationLog` of crates/seedstone-core/src/log.rs as a record, and `append` of shard/apply.rs.
use seedstone.Base.{
  ℕ, ◌+◌, Bool, true, false, Bytes, Option, none, some, List, [], replicate, if◌then◌else◌,
}
use seedstone.Dict.{Dict}
use seedstone.Log.Effect.{Effect, encode, and_then}

-- `Record`
pub record LogRecord : Type 0 where
  pub shard : ℕ
  pub seq : ℕ
  pub payload : Bytes

-- The two methods of the trait that a shard calls: `append` says whether the record is accepted.
pub record ReplicationLog (L : Type 0) : Type 0 where
  pub append : L → LogRecord → Bool × L
  pub keeps_payloads : Bool

-- `NoopLog`
abbrev pub noop_log : ReplicationLog (Unit {0})
noop_log = record { append = λ log rec. (true, log); keeps_payloads = false }

pub record ShardState (L : Type 0) : Type 0 where
  pub dict : Dict
  pub seq : ℕ
  pub log : L
  pub expire_cursor : ℕ
  pub evict_cursor : ℕ
  pub evicted : ℕ
  pub hits : ℕ
  pub misses : ℕ
  pub expired : ℕ
  pub calls : List ℕ
  pub usec : List ℕ
  pub lossy : Bool
  pub image_unix_millis : Option ℕ
  pub refusing : Bool

module _ {L : Type 0} where
  unfoldable pub recovered : Dict → ℕ → L → ShardState L
  recovered dict seq log = record {
    dict = dict;
    seq = seq;
    log = log;
    expire_cursor = 0;
    evict_cursor = 0;
    evicted = 0;
    hits = 0;
    misses = 0;
    expired = 0;
    calls = replicate 23 0;
    usec = replicate 23 0;
    lossy = false;
    image_unix_millis = none;
    refusing = false;
  }

  module _ (ops : ReplicationLog L) where
    -- The payload of a record. None is the panic of `encode` on a length that is no u32.
    unfoldable pub payload_of : Effect → Option Bytes
    payload_of effect = if ops.keeps_payloads then encode effect else some []

    -- `append`: whether the record was written, and the state after it.
    unfoldable pub append : ShardState L → ℕ → Effect → Option (Bool × ShardState L)
    unfolding payload_of
    append s shard effect = and_then (payload_of effect) (λ payload.
        let (written, log) =
          ops.append s.log (record { shard = shard; seq = s.seq; payload = payload }) in
        some (
          if written
          then (true, record s { log = log; seq = s.seq + 1 })
          else (false, record s { log = log })))

    -- `if let Err(failed) = append(..) { return failed; }` in front of a change of the keyspace, with
    -- what is answered where the record is written and where it is not.
    unfoldable pub commit {ℓ} :
        {A : Type ℓ} → ShardState L → ℕ → Effect → Dict → A → A → Option (A × ShardState L)
    unfolding append
    commit s shard effect dict answer failed =
        and_then (append s shard effect) (λ (p : Bool × ShardState L).
          some (if p.0 then (answer, record p.1 { dict = dict }) else (failed, p.1)))
