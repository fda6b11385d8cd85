-- ===== src/Net.antt =====
-- The filtered network's own state machines: crates/kakoi-net/src.
pub mod Pool
pub mod Leases
pub mod Recovery
pub mod Resolution
pub mod Chain
pub mod Staging
