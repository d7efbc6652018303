-- ===== src/Log.antt =====
-- crates/seedstone-core/src/log.rs and log/effect.rs: the records that a shard writes.
pub mod Effect
pub mod Crc
pub mod Framing
