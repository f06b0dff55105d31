-- ===== src/Examples.antt =====
-- Tests, and the theorems at concrete inputs: budgets, results, runs and patches.
mod Gates
mod Flow
mod Engine
mod Start
mod Clients
mod Registry
mod Saving
mod Evaluation
use sisu_kodo.Prelude.{
  ℕ, zero, suc, ◌*◌, ◌≤◌, ◌<◌, String, Option, none, some, Bool, true, false, List, [], ◌∷◌, All,
  Text, codes, includes, starts_with, filter, ◌≡◌, ◌≢◌, ◌↔◌, refl, arith, Given, find, ◌===◌,
  length, if◌then◌else◌, ◌<>◌,
}
use sisu_kodo.Prelude.Json.{pos, Json, num, Fields, end, field, ℤ}
use sisu_kodo.Failure.{
  Error, budget_guard, BudgetViolation, BudgetScope, plain, Result, ok, err, max_sbx_minutes,
  runtime, minutes,
}
use sisu_kodo.Sandbox.{SbxErrCode, SbxRes, SbxMetrics, merge_results, reduce_attempt}
use sisu_kodo.Sandbox.Merging.{merge_results_none_iff, merge_results_bounds, Succeeded}
use sisu_kodo.Budget.{
  RunBudget, Workload, Observed, assert_runtime_execution_budgets, assert_ingress_budget,
  retries_of, max_observed_execute_attempt, estimate_result_artifacts_mb, result_bytes,
}
use sisu_kodo.Budget.Limits.{
  execution_budgets_iff, execution_error_exceeds, ingress_budget_iff, estimate-le_iff,
}
use sisu_kodo.Budget.Attempts.{max_observed-merge_results}
use sisu_kodo.Runs.{
  RunStatus, RunRow, RunOps, find_run_by_id, find_run_by_workflow_id, is_terminal, queued, running,
  succeeded, repairing,
}
use sisu_kodo.Runs.Terminal.{RunUpdate, apply_all, IsReentry, apply_all_terminal}
use sisu_kodo.Runs.Insertion.{
  NewRun, Inserted, new_row, insert_run, drift_error, run_identity_drift_fields,
}
use sisu_kodo.Runs.Insertion.Drift.{SameIdentity, Failing, agreements, run_identity_drift_iff}
use sisu_kodo.Runs.Insertion.Again.{insert_run_idempotent, insert_run_drift}
use sisu_kodo.Patch.{
  PatchHistoryRow, PatchItem, PatchWorld, ReversiblePatchInput, read_utf8, in_step, apply_plan,
  rollback_applied_patches, is_allowed, apply_reversible_patch, rollback_reversible_patch,
  find_patch_history, new_history_row, resolve_patch_path_or_throw,
}
use sisu_kodo.Patch.Stack.{rollback-apply_plan}
use sisu_kodo.Patch.Confined.{apply_plan_confined}

abbrev small_budget : RunBudget
small_budget = record {
  max_fanout = 2;
  max_sbx_minutes = 1;
  max_artifacts_mb = 1;
  max_retries_per_step = 0;
  max_wall_clock_ms = 1000;
}

abbrev seen : ℕ → Observed
seen wall = record { sbx_wall_ms = wall; artifact_mb = 1; max_attempt = pos 1 }

abbrev load_of : ℕ → Workload
load_of n = record { concurrency = 1; steps = n; sandbox_minutes = 1 }

abbrev result_of : SbxErrCode → ℕ → ℤ → SbxRes
result_of code wall attempt = record {
  exit = 0;
  stdout = "out";
  stderr = "";
  files_out = [];
  metrics = record { wall_ms = wall; cpu_ms = 1; mem_peak_mb = 8 };
  sandbox_ref = "sb";
  err_code = code;
  task_key = "t";
  artifact_index_ref = none;
  raw = some (field "attempt" (num attempt) end);
}

abbrev two_results : List SbxRes
two_results =
    result_of SbxErrCode.none_code 5 (pos 1) ∷ result_of SbxErrCode.none_code 9 (pos 3) ∷ []

max_observed-merge_results_example :
    max_observed_execute_attempt (merge_results two_results).raw
    ≡ reduce_attempt (pos 1) two_results
max_observed-merge_results_example = max_observed-merge_results two_results

abbrev new_run : Option String → NewRun
new_run hash = record {
  id = "r1";
  intent_id = "i1";
  intent_hash = hash;
  recipe_id = none;
  recipe_v = none;
  recipe_hash = none;
  workflow_id = "w1";
  status = queued;
  trace_id = none;
  tenant_id = some "t1";
  queue_partition_key = none;
  budget = some small_budget;
}

abbrev done_row : RunRow
done_row = record (new_row 5 (new_run none)) { status = succeeded }

apply_all_terminal_example :
    (r' : RunRow) × (find_run_by_id
        (apply_all "r1" (done_row ∷ []) (RunUpdate.status 6 running ∷ []))
        "r1"
      ≡ some r')
    × (is_terminal r'.status ≡ true)
apply_all_terminal_example =
    apply_all_terminal "r1" (done_row ∷ []) (RunUpdate.status 6 running ∷ []) {r = done_row}
      (unfold find_run_by_id in refl) refl (λ h. h, tt)

insert_run_idempotent_example : insert_run 9 (new_row 5 (new_run none) ∷ []) (new_run none) ≡ (
  ok (record { run = new_row 5 (new_run none); inserted = false }),
  new_row 5 (new_run none) ∷ [],
)
unfolding insert_run find_run_by_workflow_id
insert_run_idempotent_example = insert_run_idempotent 5 9 [] (new_run none) refl

insert_run_drift_example :
    (fields : List String) × (insert_run 6 (new_row 5 (new_run none) ∷ []) (new_run (some "h"))
      ≡ (err (drift_error "w1" fields), new_row 5 (new_run none) ∷ []))
    × Failing (agreements (new_row 5 (new_run none)) (new_run (some "h"))) fields
insert_run_drift_example =
    insert_run_drift 6 (new_row 5 (new_run none) ∷ []) (new_run (some "h"))
      (new_row 5 (new_run none)) (unfold find_run_by_workflow_id in refl)
      (λ s. let e = s.intent_hash in cc)

abbrev prefix_of : String → String → Bool
prefix_of s t = starts_with (codes s) (codes t)

abbrev edit_a : PatchItem
edit_a = record { target_path = ".tmp/a"; postimage_content = "one"; diff_text = "d1" }

abbrev edit_b : PatchItem
edit_b = record { target_path = ".tmp/a"; postimage_content = "two"; diff_text = "d2" }

abbrev empty_world : PatchWorld
empty_world = record {
  files = λ path. if path === ".tmp/a" then some "zero" else none;
  history = [];
}

-- Two patches of one file, with a digest that keeps its text.
rollback-apply_plan_example :
    (back : PatchWorld) × (rollback_applied_patches
        (λ s. s)
        7
        "r1"
        "ApplyPatchST"
        (apply_plan (λ s. s) 7 (λ s. s) prefix_of "r1" 0 (edit_a ∷ edit_b ∷ []) empty_world).1
      ≡ (ok 2, back))
    × ((path : String) → read_utf8 back.files path ≡ read_utf8 empty_world.files path)
rollback-apply_plan_example =
    rollback-apply_plan (λ s. s) 7 (λ s. s) prefix_of "r1" (edit_a ∷ edit_b ∷ []) empty_world refl
      (unfold apply_plan apply_reversible_patch resolve_patch_path_or_throw in refl)

apply_plan_confined_example :
    (apply_plan (λ s. s) 7 (λ s. s) prefix_of "r1" 0 (edit_a ∷ edit_b ∷ []) empty_world).1.files
      "src/a"
    ≡ none
apply_plan_confined_example =
    apply_plan_confined (λ s. s) 7 (λ s. s) prefix_of "r1" 0 (edit_a ∷ edit_b ∷ []) empty_world
      "src/a" (unfold is_allowed in refl)
