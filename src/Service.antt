-- ===== src/Service.antt =====
-- crates/seedstone-service: the commands at the edge.
pub mod Expiry
