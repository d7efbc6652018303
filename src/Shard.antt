-- ===== src/Shard.antt =====
-- crates/seedstone-core/src/shard: commands, what they read from their arguments, how a shard
-- applies them to its keyspace and its log, and how a log is replayed.
pub mod Integer
pub mod Command
pub mod Reply
pub mod Clock
pub mod State
pub mod Scan
pub mod Handlers
pub mod Apply
pub mod Logged
pub mod Replay
pub mod Counters
pub mod Reclaim
pub mod Executor
pub mod Meaning
