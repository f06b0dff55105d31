-- ===== src/Hitl.antt =====
-- Human-in-the-loop gates: keys, decisions, interactions and views.
pub mod Topic
pub mod Keys
pub mod Decision
pub mod Interactions
pub mod View
