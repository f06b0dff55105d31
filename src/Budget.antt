-- ===== src/Budget.antt =====
-- Budget guards: src/workflow/budget-guard.ts. Numbers are natural; `Math.ceil` is written out.
pub mod Limits
pub mod Attempts
use sisu_kodo.Prelude.{
  ℕ, ◌+◌, ◌-◌, ◌*◌, ◌/◌, String, Option, none, some, Bool, List, [], ◌∷◌, ltb, if◌then◌else◌,
  ◌or_default◌, max,
}
use sisu_kodo.Prelude.Json.{
  ℤ, pos, negsuc, Json, arr, obj, Items, nil, cons, Fields, get, fields?, num?, max_ℤ,
}
use sisu_kodo.Failure.{
  BudgetMetric, max_fanout, max_sbx_minutes, max_artifacts_mb, max_retries_per_step,
  max_wall_clock_ms, BudgetScope, ingress, runtime, BudgetUnit, count, minutes, mb, ms, retries,
  BudgetViolation, budget_guard, Result, ok, err, ◌>>=◌, ◌>>◌,
}
use Prim.Native.String.{len}
use sisu_kodo.Sandbox.{SbxFile, SbxRes, SbxMetrics}

pub record RunBudget : Type 0 where
  pub max_fanout : ℕ
  pub max_sbx_minutes : ℕ
  pub max_artifacts_mb : ℕ
  pub max_retries_per_step : ℕ
  pub max_wall_clock_ms : ℕ

pub record Workload : Type 0 where
  pub concurrency : ℕ
  pub steps : ℕ
  pub sandbox_minutes : ℕ

pub record Observed : Type 0 where
  pub sbx_wall_ms : ℕ
  pub artifact_mb : ℕ
  pub max_attempt : ℤ

-- `if (observed > limit) throw new BudgetGuardError({…})`
abbrev pub within : BudgetMetric → BudgetScope → BudgetUnit → ℕ → ℕ → Result (Unit {0})
within metric scope unit limit observed =
    if ltb limit observed
    then err (
        budget_guard (record {
          metric = metric;
          scope = scope;
          limit = limit;
          observed = observed;
          unit = unit;
        }))
    else ok tt

-- Math.ceil(bytes / (1024 * 1024))
unfoldable pub to_mb : ℕ → ℕ
to_mb bytes = (bytes + 1048575) / 1048576

-- A missing text has no bytes; `len` counts the bytes of UTF-8.
abbrev pub text_bytes : Option String → ℕ
text_bytes none = 0
text_bytes (some s) = len s

abbrev pub files_inline_bytes : List SbxFile → ℕ
files_inline_bytes [] = 0
files_inline_bytes (f ∷ fs) = text_bytes f.inline + files_inline_bytes fs

-- `json_bytes` is the length of `JSON.stringify` of a value.
module _ (json_bytes : Option Fields → ℕ) (metrics_bytes : SbxMetrics → ℕ) where
  unfoldable pub result_bytes : SbxRes → ℕ
  result_bytes r =
      len r.stdout
      + len r.stderr
      + files_inline_bytes r.files_out
      + json_bytes r.raw
      + metrics_bytes r.metrics

  unfoldable pub estimate_result_artifacts_mb : SbxRes → ℕ
  unfolding to_mb result_bytes
  estimate_result_artifacts_mb r = to_mb (result_bytes r)

-- One round of the loop over `raw.tasks`: what is no record, or has no number, is passed over.
abbrev pub task_attempt : Json → Option ℤ
task_attempt task = elim (fields? task) [ none ↦ none | some fs ↦ num? (get fs "attempt") ]

unfoldable pub max_task_attempt : ℤ → Items → ℤ
max_task_attempt acc nil = acc
max_task_attempt acc (cons task tasks) =
    max_task_attempt (elim (task_attempt task) [ none ↦ acc | some a ↦ max_ℤ acc a ]) tasks

-- `Array.isArray(root.tasks) ? root.tasks : []`
abbrev pub items : Option Json → Items
items (some (arr xs)) = xs
items _ = nil

unfoldable pub max_observed_execute_attempt : Option Fields → ℤ
unfolding max_task_attempt
max_observed_execute_attempt none = pos 1
max_observed_execute_attempt (some root) =
    max_task_attempt (num? (get root "attempt") or_default pos 1) (items (get root "tasks"))

-- The part of a run request that the ingress guard reads.
unfoldable pub assert_ingress_budget :
    Option RunBudget → Option Workload → Option ℕ → Result (Unit {0})
assert_ingress_budget none workload timeout = ok tt
assert_ingress_budget (some budget) workload timeout = do
  elim workload [
    | none ↦ ok tt
    | some w ↦ within max_fanout ingress count budget.max_fanout w.steps
  ]
  elim workload [
    | none ↦ ok tt
    | some w ↦ within max_sbx_minutes ingress minutes budget.max_sbx_minutes w.sandbox_minutes
  ]
  elim timeout [
    | none ↦ ok tt
    | some t ↦ within max_wall_clock_ms ingress ms budget.max_wall_clock_ms t
  ]

unfoldable pub assert_runtime_task_fanout_budget : Option RunBudget → ℕ → Result (Unit {0})
assert_runtime_task_fanout_budget none tasks = ok tt
assert_runtime_task_fanout_budget (some budget) tasks =
    within max_fanout runtime count budget.max_fanout tasks

unfoldable pub assert_runtime_wall_clock_budget : Option RunBudget → ℕ → Result (Unit {0})
assert_runtime_wall_clock_budget none elapsed = ok tt
assert_runtime_wall_clock_budget (some budget) elapsed =
    within max_wall_clock_ms runtime ms budget.max_wall_clock_ms elapsed

-- Math.max(0, attempt - 1)
abbrev pub retries_of : ℤ → ℕ
retries_of (pos n) = n - 1
retries_of (negsuc n) = 0

unfoldable pub assert_runtime_execution_budgets : Option RunBudget → Observed → Result (Unit {0})
assert_runtime_execution_budgets none observed = ok tt
assert_runtime_execution_budgets (some budget) observed = do
  within max_sbx_minutes runtime minutes budget.max_sbx_minutes
      ((observed.sbx_wall_ms + 59999) / 60000)
  within max_artifacts_mb runtime mb budget.max_artifacts_mb observed.artifact_mb
  within max_retries_per_step runtime retries budget.max_retries_per_step
      (retries_of observed.max_attempt)
