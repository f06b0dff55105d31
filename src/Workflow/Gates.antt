-- ===== src/Workflow/Gates.antt =====
-- Waiting for a person: src/workflow/wf/hitl-gates.ts.
pub mod Outcomes
use sisu_kodo.Prelude.{
  ℕ, ◌+◌, ◌*◌, String, Option, none, some, Bool, true, false, List, [], ◌∷◌, any, ◌&&◌, ◌===◌, Text,
  if◌then◌else◌, ◌or_else◌,
}
use sisu_kodo.Prelude.Json.{
  ℤ, pos, Json, bool, num, str, arr, obj, Items, nil, cons, Fields, end, field, get, string?,
}
use sisu_kodo.Failure.{HitlChaosPhase, a, b, c, d, chaos_crash, Result, ok, err}
use sisu_kodo.Failure.Async.{Async, pure, throw, lift, ◌>>=◌, ◌>>◌}
use sisu_kodo.Hitl.Topic.{to_human_topic}
use sisu_kodo.Hitl.Keys.{
  to_hitl_prompt_key, to_hitl_result_key, to_hitl_decision_key, to_hitl_audit_key,
}
use sisu_kodo.Hitl.Decision.{
  Choice, yes, no, as_record, read_string, resolve_approval_choice, resolve_approval_rationale,
}
use sisu_kodo.Workflow.{
  Env, Process, invoke, GateResult, GateResultState, received, timed_out, GateDecision, GateAudit,
  GatePrompt, Event, Call,
}

pub record HumanDecision : Type 0 where
  pub choice : Choice
  pub rationale : Option String

abbrev pub same_phase : HitlChaosPhase → HitlChaosPhase → Bool
same_phase a a = true
same_phase b b = true
same_phase c c = true
same_phase d d = true
same_phase _ _ = false

unfoldable pub resolve_chaos_phase :
    (String → Option HitlChaosPhase) → String → Option HitlChaosPhase
resolve_chaos_phase scopes workflow_id = scopes workflow_id or_else scopes "*"

-- `setHitlChaosPhase`: no phase deletes the scope's entry.
unfoldable pub set_hitl_chaos_phase :
    {S : Type 0} → Option HitlChaosPhase → Option String → Process S → Process S
set_hitl_chaos_phase phase scope p = record p {
  chaos_phase_by_scope = λ s.
      if s === (elim scope [ none ↦ "*" | some w ↦ w ]) then phase else p.chaos_phase_by_scope s;
}

abbrev pub is_configured : Option HitlChaosPhase → HitlChaosPhase → Bool
is_configured none phase = false
is_configured (some q) phase = same_phase q phase

-- A crash is thrown where its phase is configured, once for each workflow and phase.
unfoldable pub chaos_crash_at : {S : Type 0} → HitlChaosPhase → String → Async (Process S) Unit
unfolding resolve_chaos_phase
chaos_crash_at phase workflow_id p =
    if is_configured (resolve_chaos_phase p.chaos_phase_by_scope workflow_id) phase
    then (if any (λ (t : String × HitlChaosPhase). t.0 === workflow_id && same_phase t.1 phase)
          p.consumed
        then (ok tt, p)
        else (
          err (chaos_crash phase workflow_id),
          record p { consumed = (workflow_id, phase) ∷ p.consumed },
        ))
    else (ok tt, p)

module _ {S Compiled Patched Decided Handle : Type 0}
    (env : Env S Compiled Patched Decided Handle) where
  abbrev pub set_event : Text → Event → Async (Process S) Unit
  set_event key event = invoke (Call.set_event key event) (env.steps.set_event key event)

  abbrev pub get_timestamp : Async (Process S) ℕ
  get_timestamp = invoke Call.get_timestamp env.steps.get_timestamp

  -- The part of `awaitHuman` that publishes the prompt, at most once.
  unfoldable pub emit_prompt :
      Bool → String → String → Text → Json → ℕ → Text → Text → ℕ → Async (Process S) Unit
  emit_prompt true workflow_id run_id gate_key form_schema ttl_s prompt_key topic now = pure tt
  emit_prompt false workflow_id run_id gate_key form_schema ttl_s prompt_key topic now = do
    invoke (Call.open_human_gate run_id gate_key topic)
        (env.steps.open_human_gate run_id gate_key topic)
    chaos_crash_at b workflow_id
    set_event prompt_key (
        Event.prompt (record {
          form_schema = form_schema;
          ttl_s = ttl_s;
          created_at = now;
          deadline_at = now + ttl_s * 1000;
        }))

  -- The result event, then the audit event.
  unfoldable pub settle :
      Text
      → Text
      → GateResultState
      → Option Json
      → Option String
      → Option String
      → Async (Process S) Unit
  settle gate_key result_key state payload actor reason = do
    at ← get_timestamp
    lift (env.contracts.assert_gate_result (record { state = state; payload = payload; at = at }))
    set_event result_key (Event.result (record { state = state; payload = payload; at = at }))
    later ← get_timestamp
    lift (
        env.contracts.assert_gate_audit
          (record { event = state; actor = actor; reason = reason; at = later }))
    audit_key ← lift (to_hitl_audit_key gate_key)
    set_event audit_key
        (Event.audit (record { event = state; actor = actor; reason = reason; at = later }))

  -- No reply is a timeout.
  unfoldable pub receive : String → Text → Text → Option Json → Async (Process S) (Option Json)
  unfolding settle
  receive workflow_id gate_key result_key none = do
    settle gate_key result_key timed_out none none (some "TTL expired")
    pure none
  receive workflow_id gate_key result_key (some reply) = do
    chaos_crash_at d workflow_id
    settle gate_key result_key received (some reply) (read_string (as_record reply) "actor")
        (read_string (as_record reply) "rationale")
    pure (some reply)

  -- `awaitHuman`: the reply, or none for a timeout.
  unfoldable pub await_human : String → String → Text → Json → ℕ → Async (Process S) (Option Json)
  unfolding emit_prompt receive
  await_human workflow_id run_id gate_key form_schema ttl_s = do
    prompt_key ← lift (to_hitl_prompt_key gate_key)
    result_key ← lift (to_hitl_result_key gate_key)
    topic ← lift (to_human_topic gate_key)
    chaos_crash_at a workflow_id
    emitted ←
        invoke (Call.was_prompt_emitted workflow_id gate_key)
          (env.steps.was_prompt_emitted workflow_id gate_key)
    now ← get_timestamp
    emit_prompt emitted workflow_id run_id gate_key form_schema ttl_s prompt_key topic now
    chaos_crash_at c workflow_id
    reply ← invoke (Call.recv topic ttl_s) (env.steps.recv topic ttl_s)
    receive workflow_id gate_key result_key reply

  abbrev form_field : String → Fields → Json
  form_field k more = obj (field "k" (str k) more)

  -- The form of `approve`.
  abbrev pub approval_form : Json
  approval_form = obj (
      field "v" (num (pos 1)) (
        field "title" (str "Approve?") (
          field "fields"
            (arr (
              cons
                (form_field "choice" (
                  field "t" (str "enum")
                    (field "vs" (arr (cons (str "yes") (cons (str "no") nil))) end)))
                (cons (form_field "rationale" (field "t" (str "str") (field "opt" (bool true) end)))
                  nil)))
            end)))

  -- Writes the decision event and returns the decision.
  unfoldable pub record_decision : Text → Choice → Option String → Async (Process S) HumanDecision
  record_decision decision_key choice rationale = do
    at ← get_timestamp
    lift (
        env.contracts.assert_gate_decision
          (record { decision = choice; rationale = rationale; at = at }))
    set_event decision_key
        (Event.decision (record { decision = choice; rationale = rationale; at = at }))
    pure (record { choice = choice; rationale = rationale })

  unfoldable pub decide_reply : String → Text → Text → Option Json → Async (Process S) HumanDecision
  unfolding record_decision
  decide_reply workflow_id gate_key decision_key none = do
    invoke (Call.enqueue_escalation workflow_id gate_key)
        (env.steps.enqueue_escalation workflow_id gate_key)
    record_decision decision_key no (some "timeout")
  decide_reply workflow_id gate_key decision_key (some reply) =
      record_decision decision_key (resolve_approval_choice reply)
        (resolve_approval_rationale reply)

  unfoldable pub approve : String → String → Text → ℕ → Async (Process S) HumanDecision
  unfolding await_human decide_reply
  approve workflow_id run_id gate_key ttl_s = do
    decision_key ← lift (to_hitl_decision_key gate_key)
    reply ← await_human workflow_id run_id gate_key approval_form ttl_s
    decide_reply workflow_id gate_key decision_key reply
