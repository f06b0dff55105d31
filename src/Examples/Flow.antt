-- ===== src/Examples/Flow.antt =====
-- The theorems on the workflow with a port whose operations succeed and whose store is empty.
use sisu_kodo.Prelude.{
  any, Option, none, some, false, List, [], ◌∷◌, codes, ◌≡◌, refl, trim, to_lower, lower, is_space,
  decimal_codes, decimal,
}
use sisu_kodo.Prelude.Json.{Json, str, obj, end, field}
use sisu_kodo.Workflow.Run.Crashing.{run_intent_workflow-crashed}
use sisu_kodo.Workflow.Gates.Outcomes.{is_terminal_write}
use sisu_kodo.Workflow.Gates.{approve, await_human, chaos_crash_at}
use sisu_kodo.Failure.{chaos_crash, HitlChaosPhase, Error, plain, ok, err}
use sisu_kodo.Failure.Async.{Async, ◌>>=◌, ◌>>◌, pure, lift, catch, throw}
use sisu_kodo.Hitl.Topic.{
  assert_hitl_gate_key, to_human_topic, normalize_hitl_gate_key, is_gate_key, to_normalized_slug,
  replace_runs, replace_others, is_gate_char, is_gate_start,
}
use sisu_kodo.Hitl.Keys.{
  build_gate_key, to_hitl_decision_key, to_hitl_prompt_key, to_hitl_result_key, normalized_gate,
}
use sisu_kodo.Sandbox.{SbxReq, SbxRes, SbxErrCode}
use sisu_kodo.Runs.{running}
use sisu_kodo.Workflow.{Steps, Contracts, Env, Process, LoadOutput, Call, invoke}
use sisu_kodo.Workflow.Flags.{Intent, resolve_intent_runtime_flags}
use sisu_kodo.Workflow.Run.{run_core_steps, run_intent_workflow, is_workflow_cancellation}
use sisu_kodo.Workflow.Run.Safety.{Guarded, run_core_steps-execution_after_yes}
use sisu_kodo.Workflow.Run.Failing.{Settled, run_core_steps-rolled_back}
use sisu_kodo.Workflow.Run.Reporting.{Reports, ended, run_intent_workflow-reported}

abbrev done : {A : Type 0} → A → Async Unit A
done x s = (ok x, s)

abbrev plain_intent : Intent
plain_intent = record { goal = "g"; inputs = end; constraints = end }

abbrev loaded_run : LoadOutput
loaded_run = record {
  run_id = "r1";
  intent = plain_intent;
  queue_partition_key = some "p1";
  budget = none;
  plan_approval_timeout_s = 60;
}

abbrev clean_result : SbxRes
clean_result = record {
  exit = 0;
  stdout = "";
  stderr = "";
  files_out = [];
  metrics = record { wall_ms = 1; cpu_ms = 1; mem_peak_mb = 1 };
  sandbox_ref = "sb";
  err_code = SbxErrCode.none_code;
  task_key = "t";
  artifact_index_ref = none;
  raw = none;
}

abbrev one_task : SbxReq
one_task = record {
  env_ref = "e";
  template_id = none;
  template_key = some "k";
  deps_hash = some "h";
  cmd = "c";
  files_in = [];
  env = [];
  workdir = none;
  timeout_ms = 1000;
  cpu = 1;
  mem_mb = 64;
  net = false;
  task_key = "t";
}

-- A port on which every wait for a reply gives the same answer.
abbrev port : Option Json → Steps Unit Unit Unit Unit Unit
port reply = record {
  load = λ _. done loaded_run;
  get_run_by_workflow_id_impure = λ _. done (some "r1");
  compile = λ _ _. done tt;
  apply_patch = λ _ _. done tt;
  rollback_applied_patches = λ _ _. done 0;
  decide = λ _ _. done tt;
  build_tasks = λ _ _ _. done (one_task ∷ []);
  start_task = λ _ _ _. done tt;
  get_result = λ _. done clean_result;
  save_execute_step = λ _ _ _. done tt;
  emit_budget_artifact = λ _ _. done tt;
  update_status = λ _ _. done tt;
  update_ops = λ _ _. done tt;
  update_ops_impure = λ _ _. done tt;
  open_human_gate = λ _ _ _. done tt;
  was_prompt_emitted = λ _ _. done false;
  is_plan_approved = λ _. done false;
  get_run = λ _. done (record { intent_id = "i1"; status = running; retry_count = 0 });
  get_run_steps = λ _. done [];
  emit_status_event = λ _ _. done tt;
  emit_status_event_impure = λ _ _. done tt;
  enqueue_escalation = λ _ _. done tt;
  recv = λ _ _. done reply;
  send_message = λ _ _ _ _. done tt;
  set_event = λ _ _. done tt;
  get_timestamp = done 1000;
}

abbrev accepting : Contracts Unit Unit Unit
accepting = record {
  assert_intent = λ _. ok tt;
  assert_gate_result = λ _. ok tt;
  assert_gate_audit = λ _. ok tt;
  assert_gate_decision = λ _. ok tt;
  compile_output = λ _. ok tt;
  apply_patch_output = λ _. ok tt;
  decide_output = λ _. ok tt;
  execute_output = λ _. ok clean_result;
}

abbrev env_of : Option Json → Env Unit Unit Unit Unit Unit
env_of reply = record {
  steps = port reply;
  contracts = accepting;
  sha256 = λ _. codes "0123456789abcdef0123456789abcdef";
  json_bytes = λ _. 2;
  metrics_bytes = λ _. 40;
}

abbrev fresh_process : Process Unit
fresh_process = record { store = tt; calls = []; chaos_phase_by_scope = λ _. none; consumed = [] }

abbrev yes_reply : Option Json
yes_reply = some (obj (field "choice" (str "yes") end))

run_core_steps-execution_after_yes_example :
    Guarded
      (run_core_steps
        (env_of yes_reply)
        "w1"
        "r1"
        plain_intent
        (some "p1")
        60
        none
        1000
        fresh_process).1.calls
run_core_steps-execution_after_yes_example =
    run_core_steps-execution_after_yes (env_of yes_reply) "w1" "r1" plain_intent (some "p1") 60 none
      1000 (unfold resolve_intent_runtime_flags in refl) fresh_process tt

abbrev refused : Error
refused = plain "connection lost"

-- A port that loses its database when the run asks for approval.
abbrev lost_env : Env Unit Unit Unit Unit Unit
lost_env = record (env_of none) {
  steps = record (port none) { update_status = λ _ _ s. (err refused, s) };
}

run_core_steps-rolled_back_example :
    Settled "r1"
      (run_core_steps lost_env "w1" "r1" plain_intent
        (some "p1")
        60
        none
        1000
        fresh_process).1.calls
unfolding run_core_steps invoke ◌>>=◌ ◌>>◌ pure lift catch resolve_intent_runtime_flags
    build_gate_key normalize_hitl_gate_key is_gate_key to_normalized_slug replace_runs
    replace_others trim to_lower lower is_space is_gate_char is_gate_start decimal_codes decimal
    throw is_workflow_cancellation
run_core_steps-rolled_back_example =
    run_core_steps-rolled_back lost_env "w1" "r1" plain_intent (some "p1") 60 none 1000
      fresh_process refl refused refl

abbrev reports_succeed : Reports lost_env.steps
reports_succeed = record {
  update_ops_ok = λ _ _ _. refl;
  update_ops_impure_ok = λ _ _ _. refl;
  emit_status_event_ok = λ _ _ _. refl;
  emit_status_event_impure_ok = λ _ _ _. refl;
  emit_budget_artifact_ok = λ _ _ _. refl;
}

run_intent_workflow-reported_example :
    (older : List Call) × ((run_intent_workflow lost_env "w1" fresh_process).1.calls
      ≡ ended false "w1" "r1" refused older)
unfolding run_intent_workflow invoke ◌>>=◌ ◌>>◌ pure lift catch resolve_intent_runtime_flags
    build_gate_key normalize_hitl_gate_key is_gate_key to_normalized_slug replace_runs
    replace_others trim to_lower lower is_space is_gate_char is_gate_start decimal_codes decimal
    throw is_workflow_cancellation
run_intent_workflow-reported_example =
    run_intent_workflow-reported lost_env reports_succeed "w1" fresh_process loaded_run refl refused
      refl refl

abbrev reports_ok : Reports (port none)
reports_ok = record {
  update_ops_ok = λ _ _ _. refl;
  update_ops_impure_ok = λ _ _ _. refl;
  emit_status_event_ok = λ _ _ _. refl;
  emit_status_event_impure_ok = λ _ _ _. refl;
  emit_budget_artifact_ok = λ _ _ _. refl;
}

abbrev crash : Error
crash = chaos_crash HitlChaosPhase.a "w1"

abbrev doomed_process : Process Unit
doomed_process = record fresh_process { chaos_phase_by_scope = λ scope. some HitlChaosPhase.a }

run_intent_workflow-crashed_example :
    any is_terminal_write (run_intent_workflow (env_of none) "w1" doomed_process).1.calls ≡ false
unfolding run_intent_workflow invoke ◌>>=◌ ◌>>◌ pure lift catch resolve_intent_runtime_flags
    build_gate_key normalize_hitl_gate_key is_gate_key to_normalized_slug replace_runs
    replace_others trim to_lower lower is_space is_gate_char is_gate_start decimal_codes decimal
    throw is_workflow_cancellation approve await_human to_hitl_decision_key to_hitl_prompt_key
    to_hitl_result_key normalized_gate assert_hitl_gate_key to_human_topic chaos_crash_at
run_intent_workflow-crashed_example =
    run_intent_workflow-crashed (env_of none) reports_ok (λ _ _ _. refl) "w1" doomed_process
      loaded_run refl refl crash refl refl
