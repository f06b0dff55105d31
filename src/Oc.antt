-- ===== src/Oc.antt =====
-- The OpenCode client: src/oc.
pub mod Sessions
pub mod Guard
pub mod Timeout
pub mod Ledger
pub mod Wrapper
