-- ===== src/Repro.antt =====
-- Snapshots for reproducing a run: src/lib/repro.ts.
pub mod Scope
