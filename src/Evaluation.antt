-- ===== src/Evaluation.antt =====
-- The evaluation of a run by the checks of its recipe: src/eval and src/db/evalRepo.ts.
pub mod Distance
pub mod Checks
pub mod Compared
pub mod Named
pub mod Results
pub mod Inputs
pub mod Run
