-- ===== src/Workflow/Run.antt =====
-- The intent workflow: runIntentWorkflow of src/workflow/wf/run-intent.wf.ts.
pub mod Safety
pub mod Failing
pub mod Reporting
pub mod Crashing
use sisu_kodo.Prelude.{
  ℕ, ◌-◌, String, Option, none, some, Bool, true, false, not, ◌||◌, List, [], ◌∷◌, ◌++◌, Text,
  codes, length, ◌===◌, ◌<>◌, includes, is_some, if◌then◌else◌, ◌or_default◌,
}
use sisu_kodo.Prelude.Json.{pos, Json, num, str, arr, obj, cons, nil, Fields, end, field}
use sisu_kodo.Failure.{
  Error, budget_guard, chaos_crash, identity_conflict, workflow, invalid_gate_key, named, plain,
  message, BudgetViolation, Result, ok, err,
}
use sisu_kodo.Failure.Async.{Async, pure, throw, lift, catch, ◌>>=◌, ◌>>◌}
use sisu_kodo.Budget.{
  RunBudget, estimate_result_artifacts_mb, max_observed_execute_attempt,
  assert_runtime_task_fanout_budget, assert_runtime_wall_clock_budget,
  assert_runtime_execution_budgets,
}
use sisu_kodo.Sandbox.{
  SbxErrCode, SbxMetrics, SbxReq, SbxRes, is_none, err_code_name, merge_results,
}
use sisu_kodo.Runs.{
  RunStatus, running, waiting_input, succeeded, failed, canceled, retries_exceeded, repairing,
}
use sisu_kodo.Hitl.Topic.{to_human_topic}
use sisu_kodo.Hitl.Keys.{build_gate_key}
use sisu_kodo.Hitl.Decision.{Choice, yes, no}
use sisu_kodo.Workflow.{
  Env, Process, invoke, promise_all, LoadOutput, OpsUpdate, RunStep, RunHead, BudgetArtifact, Call,
}
use sisu_kodo.Workflow.Flags.{Intent, IntentRuntimeFlags, resolve_intent_runtime_flags}
use sisu_kodo.Workflow.Gates.{HumanDecision, await_human, approve}
use sisu_kodo.Workflow.Plan.{
  no_ops, last_step_is, next_action_is, update_status, emit_status_event, update_ops,
  assert_wall_clock_budget, forward_legacy_approval, require_yes, wait_for_plan_approval,
  parallel_approvals, ask_user, require_none, fan_out,
}

-- `error.name` of the errors that another library throws.
abbrev pub error_name : Error → String
error_name (named name m) = name
error_name (plain m) = "Error"
error_name (budget_guard v) = "BudgetGuardError"
error_name (chaos_crash p w) = "HitlChaosCrashError"
error_name (identity_conflict m fields) = "RunIdentityConflictError"
error_name (invalid_gate_key key) = "Error"
error_name (workflow code m) = "WorkflowError"

unfoldable pub is_workflow_cancellation : Error → Bool
unfolding message
is_workflow_cancellation e =
    error_name e === "DBOSWorkflowCancelledError" || includes (message e) "has been cancelled"

abbrev pub budget_artifact : Error → Option BudgetArtifact
budget_artifact (budget_guard v) =
    some (record { violation = v; reason = message (budget_guard v) })
budget_artifact _ = none

abbrev pub is_chaos : Error → Bool
is_chaos (chaos_crash p w) = true
is_chaos _ = false

abbrev pub terminal_ops : Error → OpsUpdate
unfolding is_workflow_cancellation
terminal_ops e = record no_ops {
  status = some (if is_workflow_cancellation e then canceled else retries_exceeded);
  error = some (some (message e));
  next_action = some (some (if is_workflow_cancellation e then "NONE" else "REPAIR"));
}

module _ {S Compiled Patched Decided Handle : Type 0}
    (env : Env S Compiled Patched Decided Handle) where
  unfoldable pub emit_artifact : String → Option BudgetArtifact → Async (Process S) Unit
  emit_artifact run_id none = pure tt
  emit_artifact run_id (some a) =
      invoke (Call.emit_budget_artifact run_id a) (env.steps.emit_budget_artifact run_id a)

  unfoldable pub emit_budget_artifact_if_needed : String → Error → Async (Process S) Unit
  unfolding emit_artifact
  emit_budget_artifact_if_needed run_id e = emit_artifact run_id (budget_artifact e)

  unfoldable pub approve_plan : Bool → String → String → ℕ → Async (Process S) Unit
  unfolding parallel_approvals wait_for_plan_approval
  approve_plan true workflow_id run_id timeout_s =
      parallel_approvals env workflow_id run_id timeout_s
  approve_plan false workflow_id run_id timeout_s =
      wait_for_plan_approval env workflow_id run_id timeout_s

  -- The `try` block of `runCoreSteps`.
  unfoldable pub approve_and_execute :
      String
      → String
      → Option String
      → Option RunBudget
      → ℕ
      → IntentRuntimeFlags
      → Patched
      → Async (Process S) SbxRes
  unfolding approve_plan fan_out assert_wall_clock_budget
  approve_and_execute workflow_id run_id partition budget t0_ms flags patched = do
    approve_plan flags.parallel_approvals workflow_id run_id flags.plan_approval_timeout_s
    decision ← invoke (Call.decide run_id) (env.steps.decide run_id patched)
    assert_wall_clock_budget env budget t0_ms
    update_ops env run_id (last_step_is "DecideST")
    fan_out env workflow_id run_id partition budget t0_ms decision

  -- The `catch` block of `runCoreSteps`.
  unfoldable pub roll_back_and_throw : {A : Type 0} → String → Error → Async (Process S) A
  unfolding message
  roll_back_and_throw run_id e = do
    catch
        (invoke (Call.rollback_applied_patches run_id "ApplyPatchST")
          (env.steps.rollback_applied_patches run_id "ApplyPatchST"))
        (λ rollback_error. throw (
          plain (
            "APPLY_PATCH_ROLLBACK_FAILED:"
            <> (message rollback_error <> (";source=" <> message e)))))
    throw e

  unfoldable pub run_core_steps :
      String → String → Intent → Option String → ℕ → Option RunBudget → ℕ → Async (Process S) SbxRes
  unfolding ask_user approve_and_execute roll_back_and_throw assert_wall_clock_budget
  run_core_steps workflow_id run_id intent partition timeout_s budget t0_ms =
      let flags : IntentRuntimeFlags = resolve_intent_runtime_flags intent timeout_s in
      (do
        compiled ← invoke (Call.compile run_id) (env.steps.compile run_id intent)
        assert_wall_clock_budget env budget t0_ms
        update_ops env run_id (last_step_is "CompileST")
        ask_user env flags.open_ask_gate workflow_id run_id flags.plan_approval_timeout_s
        patched ← invoke (Call.apply_patch run_id) (env.steps.apply_patch run_id compiled)
        assert_wall_clock_budget env budget t0_ms
        update_ops env run_id (last_step_is "ApplyPatchST")
        catch (approve_and_execute workflow_id run_id partition budget t0_ms flags patched)
            (roll_back_and_throw run_id))

  -- A cancellation is written outside the workflow's own steps, which no longer run.
  unfoldable pub persist_terminal_failure : String → Error → Async (Process S) Unit
  persist_terminal_failure run_id e =
      if is_workflow_cancellation e
      then invoke (Call.update_ops_impure run_id (terminal_ops e))
          (env.steps.update_ops_impure run_id (terminal_ops e))
      else update_ops env run_id (terminal_ops e)

  unfoldable pub emit_terminal_status : String → Error → Async (Process S) Unit
  emit_terminal_status workflow_id e =
      if is_workflow_cancellation e
      then invoke (Call.emit_status_event_impure workflow_id canceled)
          (env.steps.emit_status_event_impure workflow_id canceled)
      else emit_status_event env workflow_id failed

  -- What both workflows do once a run has failed, when the run is known.
  unfoldable pub report_failure : String → String → Error → Async (Process S) Unit
  unfolding emit_budget_artifact_if_needed persist_terminal_failure emit_terminal_status
  report_failure workflow_id run_id e = do
    emit_budget_artifact_if_needed run_id e
    persist_terminal_failure run_id e
    emit_terminal_status workflow_id e

  unfoldable pub run_loaded : String → LoadOutput → Async (Process S) Unit
  unfolding run_core_steps
  run_loaded workflow_id loaded = do
    started_at_ms ← invoke Call.get_timestamp env.steps.get_timestamp
    update_ops env loaded.run_id (record no_ops { status = some running })
    emit_status_event env workflow_id running
    lift (env.contracts.assert_intent loaded.intent)
    run_core_steps workflow_id loaded.run_id loaded.intent loaded.queue_partition_key
        loaded.plan_approval_timeout_s loaded.budget started_at_ms
    update_status env loaded.run_id succeeded
    emit_status_event env workflow_id succeeded

  abbrev report_if_known : String → Error → Option String → Async (Process S) Unit
  report_if_known workflow_id e none = pure tt
  report_if_known workflow_id e (some run_id) = report_failure workflow_id run_id e

  -- The `catch` block of `runIntentWorkflow`, with the run if `load` has given it.
  unfoldable pub fail_run : String → Option String → Error → Async (Process S) Unit
  unfolding report_failure
  fail_run workflow_id known e = if is_chaos e then throw e else (do
    run_id ← elim known [
      | some id ↦ pure (some id)
      | none ↦
          invoke (Call.get_run_by_workflow_id_impure workflow_id)
            (env.steps.get_run_by_workflow_id_impure workflow_id)
    ]
    report_if_known workflow_id e run_id
    throw e)

  abbrev run_result : String → Result LoadOutput → Async (Process S) Unit
  unfolding run_loaded fail_run
  run_result workflow_id (err e) = fail_run workflow_id none e
  run_result workflow_id (ok loaded) =
      catch (run_loaded workflow_id loaded) (fail_run workflow_id (some loaded.run_id))

  -- Everything after `load` runs with the run known.
  unfoldable pub run_intent_workflow : String → Async (Process S) Unit
  unfolding run_loaded fail_run
  run_intent_workflow workflow_id p =
      let loaded = invoke (Call.load workflow_id) (env.steps.load workflow_id) p in
      run_result workflow_id loaded.0 loaded.1
