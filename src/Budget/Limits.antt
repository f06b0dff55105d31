-- ===== src/Budget/Limits.antt =====
-- What the budget guards let through, and what a violation says.
use sisu_kodo.Prelude.{ℕ, ◌*◌, ◌≤◌, ◌<◌, ◌≡◌, ◌↔◌, Option, none, some, arith, Given}
use sisu_kodo.Prelude.Json.{Fields}
use sisu_kodo.Failure.{BudgetViolation, budget_guard, Error, ok, err, runtime}
use sisu_kodo.Sandbox.{SbxRes, SbxMetrics}
use sisu_kodo.Budget.{
  RunBudget, Workload, Observed, result_bytes, estimate_result_artifacts_mb, assert_ingress_budget,
  assert_runtime_execution_budgets, retries_of,
}

-- The runtime execution guard passes exactly when the sandbox time fits the budgeted minutes, the
-- artifacts fit the budgeted megabytes, and the retries before the last attempt fit their limit.
pub execution_budgets_iff :
    (budget : RunBudget) (o : Observed)
    → (assert_runtime_execution_budgets (some budget) o ≡ ok tt) ↔ (
        (o.sbx_wall_ms ≤ budget.max_sbx_minutes * 60000)
        × (o.artifact_mb ≤ budget.max_artifacts_mb)
        × (retries_of o.max_attempt ≤ budget.max_retries_per_step))
unfolding assert_runtime_execution_budgets
execution_budgets_iff budget o = (λ h. ground arith, λ h. ground arith)

-- An error of the execution guard is a budget violation of the run at runtime, and the value that
-- it reports is above the limit that it reports.
pub execution_error_exceeds :
    (budget : Option RunBudget) (o : Observed) {e : Error}
    → assert_runtime_execution_budgets budget o ≡ err e
    → (v : BudgetViolation) × (e ≡ budget_guard v) × (v.limit < v.observed) × (v.scope ≡ runtime)
unfolding assert_runtime_execution_budgets
execution_error_exceeds budget o h = ground arith

-- The ingress guard passes exactly when a declared workload fits the fan-out and the sandbox
-- minutes, and a requested timeout fits the wall clock; what the request leaves out is not limited.
pub ingress_budget_iff :
    (budget : RunBudget) (w : Option Workload) (t : Option ℕ)
    → (assert_ingress_budget (some budget) w t ≡ ok tt) ↔ (
        Given w (λ load. load.steps ≤ budget.max_fanout)
        × Given w (λ load. load.sandbox_minutes ≤ budget.max_sbx_minutes)
        × Given t (λ ms. ms ≤ budget.max_wall_clock_ms))
unfolding assert_ingress_budget
ingress_budget_iff budget none none = (λ h. ground arith, λ h. ground arith)
ingress_budget_iff budget _ _ = (λ h. ground arith, λ h. ground arith)

-- The estimate stays within a number of megabytes exactly when the bytes do.
pub estimate-le_iff :
    (json_bytes : Option Fields → ℕ) (metrics_bytes : SbxMetrics → ℕ) (r : SbxRes) (m : ℕ)
    → (estimate_result_artifacts_mb json_bytes metrics_bytes r ≤ m)
      ↔ (result_bytes json_bytes metrics_bytes r ≤ m * 1048576)
unfolding estimate_result_artifacts_mb
estimate-le_iff json_bytes metrics_bytes r m = (λ h. omega arith, λ h. omega arith)
