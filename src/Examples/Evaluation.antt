-- ===== src/Examples/Evaluation.antt =====
-- The theorems on evaluation, scopes and receipts at concrete inputs.
use sisu_kodo.Prelude.{
  decimal, ℕ, ◌≤◌, String, true, none, some, List, [], ◌∷◌, ◌≡◌, ◌↔◌, refl, arith, codes,
}
use sisu_kodo.Prelude.Json.{cons, Json, num, str, obj, arr, pos, nil, end, field}
use sisu_kodo.Failure.{Result, ok, err}
use sisu_kodo.Failure.Async.{pure, lift, ◌>>=◌, ◌>>◌}
use sisu_kodo.Hash.{canonicalize}
use sisu_kodo.Evaluation.Distance.{edit_distance, rows, first_row, fill}
use sisu_kodo.Evaluation.Distance.Least.{Within, edit_distance_iff}
use sisu_kodo.Evaluation.Checks.{Engines, EvalCheck, rowcount_gte, evaluate_check, evaluate_checks}
use sisu_kodo.Prelude.{◌⊎◌, reverse}
use sisu_kodo.Prelude.Json.{null}
use sisu_kodo.Failure.{Error}
use sisu_kodo.Evaluation.Inputs.{
  Arrangement, Validators, run_results, artifacts_of_run, find_index, artifact_at,
}
use sisu_kodo.Evaluation.Results.{
  EvalResultRow, find_result, save_result, save_each, save_eval_results, list_eval_results,
}
use sisu_kodo.Failure.Repeated.{do_each}
use sisu_kodo.Evaluation.Run.{evaluate_run, evaluate_run-again}
use sisu_kodo.Artifacts.Insertion.{ArtifactRow}
use sisu_kodo.Repro.Scope.{
  SystemDb, member, first_ids, explore, children, add_new, discover_workflow_scope,
}
use sisu_kodo.Repro.Scope.Closed.{InScope}
use sisu_kodo.Repro.Scope.Found.{discover_workflow_scope-InScope}
use sisu_kodo.Sandbox.{SbxErrCode, SbxRes}
use sisu_kodo.Runs.Steps.{next_step_attempt, insert_run_step}
use sisu_kodo.Execution.Receipts.{
  Ledger, duplicate_receipt, upsert_mock_receipt, build_receipt_key, persist_execute_receipt,
  add_run_step, store_execution, save_execute_step,
}
use sisu_kodo.Execution.Receipts.Second.{saving, save_execute_step-second}
use sisu_kodo.Examples.Registry.{plain_text}

edit_distance_iff_example :
    (edit_distance (codes "kitten") (codes "sitting") 5 ≤ 3)
    ↔ Within 3 (codes "kitten") (codes "sitting")
edit_distance_iff_example = edit_distance_iff (codes "kitten") (codes "sitting") 5 3 (omega arith)

kitten_sitting : edit_distance (codes "kitten") (codes "sitting") 5 ≡ 3
unfolding edit_distance rows first_row fill
kitten_sitting = refl

kitten_far : edit_distance (codes "kitten") (codes "sitting") 1 ≡ 2
unfolding edit_distance rows first_row fill
kitten_far = refl

abbrev family : SystemDb
family = record {
  has_status_table = true;
  columns = "workflow_uuid" ∷ "parent_workflow_id" ∷ [];
  status_rows = λ parent child.
      record { parent = some "w1"; child = some "t1" }
      ∷ record { parent = some "t1"; child = some "u1" }
      ∷ record { parent = some "w2"; child = some "x1" }
      ∷ [];
}

discover_workflow_scope-InScope_example :
    (out : List String) × (discover_workflow_scope family "w1" (some "k1" ∷ []) (some "plan" ∷ [])
      ≡ some out)
    × ((x : String)
        → (member x out ≡ true)
          ↔ InScope
              (family.status_rows "parent_workflow_id" "workflow_uuid")
              (first_ids "w1" (some "k1" ∷ []) (some "plan" ∷ []))
              x)
discover_workflow_scope-InScope_example =
    discover_workflow_scope-InScope family "w1" (some "k1" ∷ []) (some "plan" ∷ [])
      "parent_workflow_id" "workflow_uuid" refl refl refl

family_scope :
    discover_workflow_scope family "w1" (some "k1" ∷ []) (some "plan" ∷ [])
    ≡ some ("w1" ∷ "k1" ∷ "esc:w1:plan" ∷ "t1" ∷ "u1" ∷ [])
unfolding discover_workflow_scope first_ids explore children add_new
family_scope = refl

abbrev engines : Engines
engines = record {
  matches = λ re s. ok true;
  validates = λ schema v. ok true;
  units = codes;
  assert_eval_check_result = λ result. ok tt;
  assert_eval_check_results = λ results. ok tt;
}

abbrev validators : Validators
validators = record {
  assert_eval_checks = λ checks. ok tt;
  assert_artifact_index = λ index. ok ("artifact://run/r1/rows" ∷ []);
}

abbrev artifact_row : ℕ → String → String → Json → ArtifactRow
artifact_row idx kind uri inline = record {
  key = record { run_id = "r1"; step_id = "ExecuteST"; task_key = "t"; idx = idx; attempt = 1 };
  artifact = record { kind = kind; uri = some uri; inline = some inline; sha256 = "h" };
  created_at = 3;
}

abbrev stored_artifacts : List ArtifactRow
stored_artifacts =
    artifact_row 1 "file" "artifact://run/r1/rows"
      (obj (field "json" (arr (cons (num (pos 1)) (cons (num (pos 2)) nil))) end))
    ∷ artifact_row 0 "artifact_index" "artifact://run/r1/index" (obj (field "json" (obj end) end))
    ∷ []

abbrev row_checks : List EvalCheck
row_checks = rowcount_gte "rows" "artifact://run/r1/rows" 2 ∷ []

abbrev row_result : EvalResultRow
row_result = record {
  run_id = "r1";
  check_id = "rows";
  pass = true;
  reason = "rowcount_gte:ok:2>=2";
  payload = obj (field "rows" (num (pos 2)) (field "min" (num (pos 2)) end));
  created_at = 5;
}

abbrev evaluated :
    Arrangement
    → List ArtifactRow
    → ℕ
    → List EvalResultRow
    → Result (List EvalResultRow) × List EvalResultRow
evaluated arranged artifacts now stored =
    evaluate_run plain_text engines validators (λ a b. true) "r1" row_checks arranged artifacts now
      stored

first_evaluation : (evaluated (λ rows. rows) stored_artifacts 5 []).0 ≡ ok (row_result ∷ [])
unfolding evaluate_run run_results artifacts_of_run find_index artifact_at evaluate_checks
    evaluate_check save_eval_results save_each do_each save_result find_result list_eval_results
    decimal lift pure ◌>>=◌ ◌>>◌
first_evaluation = refl

-- The second time, the artifacts come the other way round and the last one twice.
evaluate_run-again_example :
    let after = (evaluated (λ rows. rows) stored_artifacts 5 []).1 in
    ((evaluated reverse
        (artifact_row 1 "file" "artifact://run/r1/rows" null ∷ stored_artifacts)
        8
        after).1
      ≡ after)
    × (((evaluated reverse
            (artifact_row 1 "file" "artifact://run/r1/rows" null ∷ stored_artifacts)
            8
            after).0
          ≡ ok (row_result ∷ []))
        ⊎ ((e : Error) × ((evaluated reverse
                (artifact_row 1 "file" "artifact://run/r1/rows" null ∷ stored_artifacts)
                8
                after).0
              ≡ err e)))
evaluate_run-again_example =
    evaluate_run-again plain_text engines validators (λ a b. true) "r1" row_checks (λ rows. rows)
      reverse stored_artifacts
      (artifact_row 1 "file" "artifact://run/r1/rows" null ∷ stored_artifacts) 5 8 []
      (row_result ∷ []) first_evaluation

abbrev sandbox_result : SbxErrCode → SbxRes
sandbox_result code = record {
  exit = 0;
  stdout = "";
  stderr = "";
  files_out = [];
  metrics = record { wall_ms = 1; cpu_ms = 1; mem_peak_mb = 1 };
  sandbox_ref = "s";
  err_code = code;
  task_key = "t";
  artifact_index_ref = none;
  raw = none;
}

abbrev blank : Ledger
blank = record { receipts = []; run_steps = [] }

abbrev saving_as : SbxErrCode → Ledger → Result (Unit {0}) × Ledger
saving_as code w =
    saving plain_text (λ output. "out") "r1" (str "decision") (λ members. ok tt) 1 2
      (sandbox_result code) end none none w

failed_saved : (saving_as SbxErrCode.boot_fail blank).0 ≡ ok tt
unfolding save_execute_step store_execution persist_execute_receipt upsert_mock_receipt add_run_step
    next_step_attempt insert_run_step build_receipt_key canonicalize lift ◌>>=◌ ◌>>◌
failed_saved = refl

save_execute_step-second_example :
    ((saving_as SbxErrCode.none_code (saving_as SbxErrCode.boot_fail blank).1).0
      ≡ err (duplicate_receipt "r1"))
    × ((saving_as SbxErrCode.none_code (saving_as SbxErrCode.boot_fail blank).1).1.run_steps
        ≡ (saving_as SbxErrCode.boot_fail blank).1.run_steps)
save_execute_step-second_example =
    save_execute_step-second plain_text (λ output. "out") "r1" (str "decision") (λ members. ok tt) 1
      2 (sandbox_result SbxErrCode.boot_fail) (sandbox_result SbxErrCode.none_code) end end none
      none none none blank failed_saved refl refl
