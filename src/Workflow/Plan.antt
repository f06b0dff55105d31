-- ===== src/Workflow/Plan.antt =====
-- The parts that a run and its repair share: approval of the plan, the budget on the wall clock and
-- the fan-out of tasks, of src/workflow/wf/run-intent.wf.ts. The runs of a `Promise.all` are put one
-- after the other, in the order of the list.
pub mod Approval
use sisu_kodo.Prelude.{
  ℕ, ◌-◌, String, Option, none, some, Bool, true, false, not, ◌||◌, List, [], ◌∷◌, ◌++◌, Text,
  codes, length, ◌===◌, ◌<>◌, includes, is_some, if◌then◌else◌, ◌or_default◌,
}
use sisu_kodo.Prelude.Json.{pos, Json, num, str, arr, obj, cons, nil, Fields, end, field}
use sisu_kodo.Failure.{
  Error, budget_guard, chaos_crash, identity_conflict, invalid_gate_key, named, plain, message,
  BudgetViolation, Result, ok, err,
}
use sisu_kodo.Failure.Async.{Async, pure, throw, lift, catch, ◌>>=◌, ◌>>◌}
use sisu_kodo.Budget.{
  RunBudget, estimate_result_artifacts_mb, max_observed_execute_attempt,
  assert_runtime_task_fanout_budget, assert_runtime_wall_clock_budget,
  assert_runtime_execution_budgets,
}
use sisu_kodo.Sandbox.{
  SbxErrCode, SbxMetrics, SbxReq, SbxRes, is_none, err_code_name, merge_results,
}
use sisu_kodo.Runs.{
  RunStatus, running, waiting_input, succeeded, failed, canceled, retries_exceeded, repairing,
}
use sisu_kodo.Hitl.Topic.{to_human_topic}
use sisu_kodo.Hitl.Keys.{build_gate_key}
use sisu_kodo.Hitl.Decision.{Choice, yes, no}
use sisu_kodo.Workflow.{
  Env, Process, invoke, promise_all, LoadOutput, OpsUpdate, RunStep, RunHead, BudgetArtifact, Call,
}
use sisu_kodo.Workflow.Flags.{Intent, IntentRuntimeFlags, resolve_intent_runtime_flags}
use sisu_kodo.Workflow.Gates.{HumanDecision, await_human, approve}

abbrev pub no_ops : OpsUpdate
no_ops = record {
  status = none;
  last_step = none;
  error = none;
  retry_count_inc = false;
  next_action = none;
}

abbrev pub last_step_is : String → OpsUpdate
last_step_is step = record no_ops { last_step = some step }

abbrev pub next_action_is : Option String → OpsUpdate
next_action_is action = record no_ops { next_action = some action }

abbrev pub choice_name : Choice → String
choice_name yes = "yes"
choice_name no = "no"

abbrev pub ask_form : Json
ask_form = obj (
    field "v" (num (pos 1)) (
      field "title" (str "Question") (
        field "fields" (arr (cons (obj (field "k" (str "answer") (field "t" (str "str") end))) nil))
          end)))

abbrev pub legacy_approval : Json
legacy_approval = obj (
    field "choice" (str "yes")
      (field "rationale" (str "legacy-approved") (field "actor" (str "legacy-plan-approvals") end)))

module _ {S Compiled Patched Decided Handle : Type 0}
    (env : Env S Compiled Patched Decided Handle) where
  abbrev pub update_status : String → RunStatus → Async (Process S) Unit
  update_status run_id status =
      invoke (Call.update_status run_id status) (env.steps.update_status run_id status)

  abbrev pub emit_status_event : String → RunStatus → Async (Process S) Unit
  emit_status_event workflow_id status =
      invoke (Call.emit_status_event workflow_id status)
        (env.steps.emit_status_event workflow_id status)

  abbrev pub update_ops : String → OpsUpdate → Async (Process S) Unit
  update_ops run_id ops = invoke (Call.update_ops run_id ops) (env.steps.update_ops run_id ops)

  unfoldable pub assert_wall_clock_budget : Option RunBudget → ℕ → Async (Process S) Unit
  assert_wall_clock_budget none t0_ms = pure tt
  assert_wall_clock_budget (some budget) t0_ms = do
    now_ms ← invoke Call.get_timestamp env.steps.get_timestamp
    lift (assert_runtime_wall_clock_budget (some budget) (now_ms - t0_ms))

  -- A plan approval of before the gates is sent to the gate's topic as a reply.
  unfoldable pub forward_legacy_approval : Bool → String → Text → Async (Process S) Unit
  forward_legacy_approval false workflow_id gate_key = pure tt
  forward_legacy_approval true workflow_id gate_key = do
    topic ← lift (to_human_topic gate_key)
    let dedupe_key : Text =
          codes "legacy-plan-approval:" ++ (codes workflow_id ++ (b':' ∷ gate_key)) in
        invoke (Call.send_message workflow_id legacy_approval topic dedupe_key)
          (env.steps.send_message workflow_id legacy_approval topic dedupe_key)

  -- `approve` returns no other choice than yes or no, and no field `approved`.
  unfoldable pub require_choice : Choice → Option String → Async (Process S) Unit
  require_choice yes rationale = pure tt
  require_choice no rationale =
      throw (plain ("Plan approval failed: no (rationale: " <> ((rationale or_default "") <> ")")))

  unfoldable pub require_yes : HumanDecision → Async (Process S) Unit
  unfolding require_choice
  require_yes decision = require_choice decision.choice decision.rationale

  unfoldable pub wait_for_plan_approval : String → String → ℕ → Async (Process S) Unit
  unfolding forward_legacy_approval require_yes
  wait_for_plan_approval workflow_id run_id timeout_s = do
    gate_key ← lift (build_gate_key env.sha256 run_id "ApplyPatchST" "approve-plan" 1)
    update_status run_id waiting_input
    emit_status_event workflow_id waiting_input
    update_ops run_id (next_action_is (some "APPROVE_PLAN"))
    compat_approved ← invoke (Call.is_plan_approved run_id) (env.steps.is_plan_approved run_id)
    forward_legacy_approval compat_approved workflow_id gate_key
    decision ← approve env workflow_id run_id gate_key timeout_s
    require_yes decision
    update_ops run_id (next_action_is none)
    update_status run_id running
    emit_status_event workflow_id running

  -- Both gates of the parallel hook are answered; their choices are not looked at.
  unfoldable pub parallel_approvals : String → String → ℕ → Async (Process S) Unit
  unfolding promise_all
  parallel_approvals workflow_id run_id timeout_s = do
    g1 ← lift (build_gate_key env.sha256 run_id "ApplyPatchST" "parallel-1" 1)
    g2 ← lift (build_gate_key env.sha256 run_id "ApplyPatchST" "parallel-2" 1)
    promise_all (λ gate_key. approve env workflow_id run_id gate_key timeout_s) (g1 ∷ g2 ∷ [])
    pure tt

  unfoldable pub require_answer : Option Json → Async (Process S) Unit
  require_answer none = throw (plain "Ask-user gate timed out")
  require_answer (some answer) = pure tt

  unfoldable pub ask_user : Bool → String → String → ℕ → Async (Process S) Unit
  unfolding require_answer
  ask_user false workflow_id run_id timeout_s = pure tt
  ask_user true workflow_id run_id timeout_s = do
    gate_key ← lift (build_gate_key env.sha256 run_id "CompileST" "ask-user" 1)
    update_status run_id waiting_input
    emit_status_event workflow_id waiting_input
    answer ← await_human env workflow_id run_id gate_key ask_form timeout_s
    require_answer answer
    update_status run_id running
    emit_status_event workflow_id running

  -- Throws what a result that is not NONE stands for.
  unfoldable pub require_none : SbxRes → Async (Process S) Unit
  require_none r =
      if is_none r.err_code
      then pure tt
      else throw (plain ("SBX execution failed [" <> (err_code_name r.err_code <> "]")))

  -- Fan-out: the tasks are started, their results merged, checked against the budget and saved.
  unfoldable pub fan_out :
      String → String → Option String → Option RunBudget → ℕ → Decided → Async (Process S) SbxRes
  unfolding assert_wall_clock_budget require_none
  fan_out intent_id run_id partition budget t0_ms decision = do
    tasks ← invoke (Call.build_tasks run_id) (env.steps.build_tasks decision intent_id run_id)
    lift (assert_runtime_task_fanout_budget budget (length tasks))
    assert_wall_clock_budget budget t0_ms
    handles ←
        promise_all
          (λ (task : SbxReq).
            invoke (Call.start_task task) (env.steps.start_task task run_id partition))
          tasks
    results ← promise_all (λ h. invoke Call.get_result (env.steps.get_result h)) handles
    let final : SbxRes = merge_results results in
        (lift (
            assert_runtime_execution_budgets budget (record {
              sbx_wall_ms = final.metrics.wall_ms;
              artifact_mb = estimate_result_artifacts_mb env.json_bytes env.metrics_bytes final;
              max_attempt = max_observed_execute_attempt final.raw;
            }))
          >> assert_wall_clock_budget budget t0_ms
          >> invoke (Call.save_execute_step run_id final)
              (env.steps.save_execute_step run_id final decision)
          >> update_ops run_id (last_step_is "ExecuteST")
          >> require_none final
          >> pure final)
