-- ===== src/Shard/Reply.antt =====
-- crates/seedstone-core/src/shard/reply.rs, and the figures of `ShardStats` in shard/pool.rs.
use seedstone.Base.{ℕ, Bool, Bytes, ℤ, Option, List}

pub data ReplyError : Type 0 where
  not_an_integer : ReplyError
  would_overflow : ReplyError
  shard_unavailable : ReplyError
  log_write_failed : ReplyError
  out_of_memory : ReplyError
  save_in_progress : ReplyError
  snapshot_failed : ReplyError

pub record ShardStats : Type 0 where
  pub keys : ℕ
  pub expires : ℕ
  pub evicted : ℕ
  pub hits : ℕ
  pub misses : ℕ
  pub expired : ℕ
  pub calls : List ℕ
  pub usec : List ℕ

pub data Reply : Type 0 where
  bulk : Option Bytes → Reply
  ok : Reply
  status : Bytes → Reply
  removed : Bool → Reply
  integer : ℤ → Reply
  -- cursor, keys, visited
  scan : ℕ → List Bytes → ℕ → Reply
  stats : ShardStats → Reply
  error : ReplyError → Reply
