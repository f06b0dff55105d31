-- ===== src/Execution.antt =====
-- The execution of a plan: src/workflow/steps/execute.step.ts and what
-- src/workflow/steps/run-intent.steps.ts stores of it.
pub mod Tasks
pub mod Receipts
