-- ===== src/Hitl/View.antt =====
-- The view of a gate: src/server/gate-view.ts.
use sisu_kodo.Prelude.{ℕ, String, Text, Option, none, some}
use sisu_kodo.Workflow.{GatePrompt, GateResult, GateResultState, GateDecision}

pub data GateState : Type 0 where
  pending received timed_out resolved : GateState

pub record GateView : Type 0 where
  pub workflow_id : String
  pub gate_key : Text
  pub topic : Text
  pub state : GateState
  pub prompt : GatePrompt
  pub result : Option GateResult
  pub origin : Option String
  pub payload_hash : Option String
  pub created_at : ℕ
  pub deadline_at : ℕ

pub record GateHead : Type 0 where
  pub gate_key : Text
  pub topic : Text
  pub created_at : ℕ

pub record InteractionMeta : Type 0 where
  pub origin : Option String
  pub payload_hash : String

abbrev received_state : Option GateDecision → GateState
received_state none = GateState.received
received_state (some d) = GateState.resolved

abbrev result_state : GateResultState → Option GateDecision → GateState
result_state GateResultState.timed_out d = GateState.timed_out
result_state GateResultState.received d = received_state d

unfoldable pub gate_state : Option GateResult → Option GateDecision → GateState
gate_state none d = GateState.pending
gate_state (some r) d = result_state r.state d

unfoldable pub project_gate_view :
    String
    → GateHead
    → GatePrompt
    → Option GateResult
    → Option GateDecision
    → Option InteractionMeta
    → GateView
unfolding gate_state
project_gate_view workflow_id gate prompt result decision meta = record {
  workflow_id = workflow_id;
  gate_key = gate.gate_key;
  topic = gate.topic;
  state = gate_state result decision;
  prompt = prompt;
  result = result;
  origin = elim meta [ none ↦ none | some m ↦ m.origin ];
  payload_hash = elim meta [ none ↦ none | some m ↦ some m.payload_hash ];
  created_at = gate.created_at;
  deadline_at = prompt.deadline_at;
}
