-- ===== src/Workflow.antt =====
-- The port that the intent workflow runs against: IntentWorkflowSteps of
-- src/workflow/wf/run-intent.wf.ts, and the state of the process that runs it. Every call of an
-- operation is recorded, the newest first; what the operations do to the store is theirs.
pub mod Flags
pub mod Traces
pub mod Gates
pub mod Plan
pub mod Run
pub mod Repair
use sisu_kodo.Prelude.{ℕ, String, Option, none, some, Bool, List, [], ◌∷◌, Text}
use sisu_kodo.Prelude.Json.{Json, Fields}
use sisu_kodo.Failure.{BudgetViolation, HitlChaosPhase, Error, Result, ok, err}
use sisu_kodo.Failure.Async.{Async}
use sisu_kodo.Budget.{RunBudget}
use sisu_kodo.Sandbox.{SbxMetrics, SbxReq, SbxRes}
use sisu_kodo.Runs.{RunStatus}
use sisu_kodo.Hitl.Decision.{Choice}
use sisu_kodo.Workflow.Flags.{Intent}

pub record LoadOutput : Type 0 where
  pub run_id : String
  pub intent : Intent
  pub queue_partition_key : Option String
  pub budget : Option RunBudget
  pub plan_approval_timeout_s : ℕ

-- The argument of `updateOps`; a field that is not given is none.
pub record OpsUpdate : Type 0 where
  pub status : Option RunStatus
  pub last_step : Option String
  pub error : Option (Option String)
  pub retry_count_inc : Bool
  pub next_action : Option (Option String)

pub record GatePrompt : Type 0 where
  pub form_schema : Json
  pub ttl_s : ℕ
  pub created_at : ℕ
  pub deadline_at : ℕ

pub data GateResultState : Type 0 where
  received timed_out : GateResultState

pub record GateResult : Type 0 where
  pub state : GateResultState
  pub payload : Option Json
  pub at : ℕ

-- The payload of a decision holds its rationale and nothing else.
pub record GateDecision : Type 0 where
  pub decision : Choice
  pub rationale : Option String
  pub at : ℕ

pub record GateAudit : Type 0 where
  pub event : GateResultState
  pub actor : Option String
  pub reason : Option String
  pub at : ℕ

pub data Event : Type 0 where
  prompt : GatePrompt → Event
  result : GateResult → Event
  decision : GateDecision → Event
  audit : GateAudit → Event

pub record BudgetArtifact : Type 0 where
  pub violation : BudgetViolation
  pub reason : String

-- What `getRun` gives a repair.
pub record RunHead : Type 0 where
  pub intent_id : String
  pub status : RunStatus
  pub retry_count : ℕ

-- What a repair reads of a recorded step.
pub record RunStep : Type 0 where
  pub step_id : String
  pub phase : String
  pub output : Option Json

pub data Call : Type 0 where
  load : String → Call
  get_run_by_workflow_id_impure : String → Call
  compile : String → Call
  apply_patch : String → Call
  rollback_applied_patches : String → String → Call
  decide : String → Call
  build_tasks : String → Call
  start_task : SbxReq → Call
  get_result : Call
  save_execute_step : String → SbxRes → Call
  emit_budget_artifact : String → BudgetArtifact → Call
  update_status : String → RunStatus → Call
  update_ops : String → OpsUpdate → Call
  update_ops_impure : String → OpsUpdate → Call
  open_human_gate : String → Text → Text → Call
  was_prompt_emitted : String → Text → Call
  is_plan_approved : String → Call
  get_run : String → Call
  get_run_steps : String → Call
  emit_status_event : String → RunStatus → Call
  emit_status_event_impure : String → RunStatus → Call
  enqueue_escalation : String → Text → Call
  recv : Text → ℕ → Call
  send_message : String → Json → Text → Text → Call
  set_event : Text → Event → Call
  get_timestamp : Call

-- `S` is the store behind the operations; what `compile`, `applyPatch`, `decide` and `startTask`
-- return is opaque to the workflow.
pub record Steps (S Compiled Patched Decided Handle : Type 0) : Type 0 where
  pub load : String → Async S LoadOutput
  pub get_run_by_workflow_id_impure : String → Async S (Option String)
  pub compile : String → Intent → Async S Compiled
  pub apply_patch : String → Compiled → Async S Patched
  pub rollback_applied_patches : String → String → Async S ℕ
  pub decide : String → Patched → Async S Decided
  pub build_tasks : Decided → String → String → Async S (List SbxReq)
  pub start_task : SbxReq → String → Option String → Async S Handle
  pub get_result : Handle → Async S SbxRes
  pub save_execute_step : String → SbxRes → Decided → Async S Unit
  pub emit_budget_artifact : String → BudgetArtifact → Async S Unit
  pub update_status : String → RunStatus → Async S Unit
  pub update_ops : String → OpsUpdate → Async S Unit
  pub update_ops_impure : String → OpsUpdate → Async S Unit
  pub open_human_gate : String → Text → Text → Async S Unit
  pub was_prompt_emitted : String → Text → Async S Bool
  pub is_plan_approved : String → Async S Bool
  pub get_run : String → Async S RunHead
  pub get_run_steps : String → Async S (List RunStep)
  pub emit_status_event : String → RunStatus → Async S Unit
  pub emit_status_event_impure : String → RunStatus → Async S Unit
  pub enqueue_escalation : String → Text → Async S Unit
  pub recv : Text → ℕ → Async S (Option Json)
  pub send_message : String → Json → Text → Text → Async S Unit
  pub set_event : Text → Event → Async S Unit
  pub get_timestamp : Async S ℕ

-- The validators of the contracts that the workflow asserts.
pub record Contracts (Compiled Patched Decided : Type 0) : Type 0 where
  pub assert_intent : Intent → Result (Unit {0})
  pub assert_gate_result : GateResult → Result (Unit {0})
  pub assert_gate_audit : GateAudit → Result (Unit {0})
  pub assert_gate_decision : GateDecision → Result (Unit {0})
  pub compile_output : Option Json → Result Compiled
  pub apply_patch_output : Option Json → Result Patched
  pub decide_output : Option Json → Result Decided
  pub execute_output : Option Json → Result SbxRes

-- What the workflow code is given: the port, the validators, the hex digest of node:crypto and the
-- length of what `JSON.stringify` writes.
pub record Env (S Compiled Patched Decided Handle : Type 0) : Type 0 where
  pub steps : Steps S Compiled Patched Decided Handle
  pub contracts : Contracts Compiled Patched Decided
  pub sha256 : Text → Text
  pub json_bytes : Option Fields → ℕ
  pub metrics_bytes : SbxMetrics → ℕ

pub record Process (S : Type 0) : Type 0 where
  pub store : S
  pub calls : List Call
  pub chaos_phase_by_scope : String → Option HitlChaosPhase
  pub consumed : List (String × HitlChaosPhase)

-- A call of an operation, recorded.
unfoldable pub invoke : {S A : Type 0} → Call → Async S A → Async (Process S) A
invoke call m p = ((m p.store).0, record p { store = (m p.store).1; calls = call ∷ p.calls })

unfoldable pub combine : {A : Type 0} → Result A → Result (List A) → Result (List A)
combine (ok x) (ok xs) = ok (x ∷ xs)
combine (ok x) (err e) = err e
combine (err e) xs = err e

-- `Promise.all(xs.map(f))`: every call is made, also after one that fails.
unfoldable pub promise_all : {W A B : Type 0} → (A → Async W B) → List A → Async W (List B)
unfolding combine
promise_all f [] w = (ok [], w)
promise_all f (x ∷ xs) w =
    let rest = promise_all f xs (f x w).1 in (combine (f x w).0 rest.0, rest.1)
