-- ===== src/Workflow/Run/Reporting.antt =====
-- The terminal state that a failed run is left with.
use sisu_kodo.Prelude.{
  String, Option, none, some, Bool, true, false, List, ◌∷◌, ◌≡◌, refl, sym, ap, ◌∙◌, if◌then◌else◌,
  inl, inr, Bool-cases, ◌||◌, ◌===◌, includes,
}
use sisu_kodo.Failure.{Error, plain, Result, ok, err}
use sisu_kodo.Failure.Async.{Async, ◌>>=◌, ◌>>◌, pure, throw, catch, resume}
use sisu_kodo.Runs.{RunStatus, failed, canceled, retries_exceeded}
use sisu_kodo.Workflow.{Env, Steps, Process, Call, OpsUpdate, LoadOutput, BudgetArtifact, invoke}
use sisu_kodo.Workflow.Run.{
  error_name, message, is_workflow_cancellation, is_chaos, terminal_ops, budget_artifact,
  emit_artifact, emit_budget_artifact_if_needed, persist_terminal_failure, emit_terminal_status,
  report_failure, fail_run, run_loaded, run_intent_workflow,
}

-- The operations that a failure is reported with do not fail themselves.
pub record Reports {S Compiled Patched Decided Handle : Type 0}
    (steps : Steps S Compiled Patched Decided Handle) : Type 0 where
  pub update_ops_ok :
      (run_id : String) (ops : OpsUpdate) (s : S) → (steps.update_ops run_id ops s).0 ≡ ok tt
  pub update_ops_impure_ok :
      (run_id : String) (ops : OpsUpdate) (s : S) → (steps.update_ops_impure run_id ops s).0 ≡ ok tt
  pub emit_status_event_ok :
      (workflow_id : String) (status : RunStatus) (s : S)
      → (steps.emit_status_event workflow_id status s).0 ≡ ok tt
  pub emit_status_event_impure_ok :
      (workflow_id : String) (status : RunStatus) (s : S)
      → (steps.emit_status_event_impure workflow_id status s).0 ≡ ok tt
  pub emit_budget_artifact_ok :
      (run_id : String) (artifact : BudgetArtifact) (s : S)
      → (steps.emit_budget_artifact run_id artifact s).0 ≡ ok tt

-- The write of the terminal state: a cancellation's outside the workflow's steps.
abbrev terminal_write : String → Error → Call
terminal_write run_id e =
    if is_workflow_cancellation e
    then Call.update_ops_impure run_id (terminal_ops e)
    else Call.update_ops run_id (terminal_ops e)

abbrev terminal_event : String → Error → Call
terminal_event workflow_id e =
    if is_workflow_cancellation e
    then Call.emit_status_event_impure workflow_id canceled
    else Call.emit_status_event workflow_id failed

then_ok :
    {W A B : Type 0} (m : Async W A) (k : Async W B) (w : W) (x : A)
    → (m w).0 ≡ ok x
    → (m >> k) w ≡ k (m w).1
unfolding ◌>>◌
then_ok m k w x h = rw h refl

abbrev pub error_of : {A : Type 0} → Result A → Error
error_of (ok _) = plain ""
error_of (err e) = e

module _ {S Compiled Patched Decided Handle : Type 0} (env : Env S Compiled Patched Decided Handle)
    (reports : Reports env.steps) where
  artifact_ok :
      (run_id : String) (e : Error) (p : Process S)
      → (emit_budget_artifact_if_needed env run_id e p).0 ≡ ok tt
  unfolding emit_budget_artifact_if_needed pure invoke
  artifact_ok run_id e p = go (budget_artifact e)
    where
      go : (a : Option BudgetArtifact) → (emit_artifact env run_id a p).0 ≡ ok tt
      go none = refl
      go (some a) = reports.emit_budget_artifact_ok run_id a p.store

  write_ok :
      (run_id : String) (e : Error) (p : Process S)
      → ((persist_terminal_failure env run_id e p).0 ≡ ok tt)
        × ((persist_terminal_failure env run_id e p).1.calls ≡ terminal_write run_id e ∷ p.calls)
  unfolding persist_terminal_failure invoke
  write_ok run_id e p = elim (Bool-cases (is_workflow_cancellation e)) [
    | inl h ↦ rw h (reports.update_ops_impure_ok run_id (terminal_ops e) p.store, refl)
    | inr h ↦ rw h (reports.update_ops_ok run_id (terminal_ops e) p.store, refl)
  ]

  event_ok :
      (workflow_id : String) (e : Error) (p : Process S)
      → ((emit_terminal_status env workflow_id e p).0 ≡ ok tt)
        × ((emit_terminal_status env workflow_id e p).1.calls
            ≡ terminal_event workflow_id e ∷ p.calls)
  unfolding emit_terminal_status invoke
  event_ok workflow_id e p = elim (Bool-cases (is_workflow_cancellation e)) [
    | inl h ↦ rw h (reports.emit_status_event_impure_ok workflow_id canceled p.store, refl)
    | inr h ↦ rw h (reports.emit_status_event_ok workflow_id failed p.store, refl)
  ]

  -- What a report adds to the calls, after the artifact of a blown budget.
  abbrev Reported : String → String → Error → List Call → Type 0
  Reported workflow_id run_id e cs =
      (older : List Call) × (cs ≡ terminal_event workflow_id e ∷ terminal_write run_id e ∷ older)

  report_failure-Reported :
      (workflow_id run_id : String) (e : Error) (p : Process S)
      → ((report_failure env workflow_id run_id e p).0 ≡ ok tt)
        × Reported workflow_id run_id e (report_failure env workflow_id run_id e p).1.calls
  unfolding report_failure
  report_failure-Reported workflow_id run_id e p =
      let p1 = (emit_budget_artifact_if_needed env run_id e p).1 in
      let p2 = (persist_terminal_failure env run_id e p1).1 in
      let steps_ =
        then_ok (emit_budget_artifact_if_needed env run_id e)
          (persist_terminal_failure env run_id e >> emit_terminal_status env workflow_id e) p tt
          (artifact_ok run_id e p)
        ∙ then_ok (persist_terminal_failure env run_id e) (emit_terminal_status env workflow_id e)
            p1 tt (write_ok run_id e p1).0 in
      rw steps_ (
        (event_ok workflow_id e p2).0,
        (
          p1.calls,
          (event_ok workflow_id e p2).1
              ∙ ap (◌∷◌ (terminal_event workflow_id e)) (write_ok run_id e p1).1,
        ),
      )

  pub fail_run-Reported :
      (workflow_id run_id : String) (e : Error) (p : Process S)
      → is_chaos e ≡ false
      → ((fail_run env workflow_id (some run_id) e p).0 ≡ err e)
        × Reported workflow_id run_id e (fail_run env workflow_id (some run_id) e p).1.calls
  unfolding fail_run ◌>>=◌ ◌>>◌ pure throw
  fail_run-Reported workflow_id run_id e p calm =
      let r = report_failure-Reported workflow_id run_id e p in rw calm (rw r.0 (refl, r.1))

  pub fail_run_chaos :
      (workflow_id run_id : String) (e : Error) (p : Process S)
      → is_chaos e ≡ true
      → (fail_run env workflow_id (some run_id) e p).0 ≡ err e
  unfolding fail_run throw
  fail_run_chaos workflow_id run_id e p chaos = rw chaos refl

  run_result_Reported :
      (workflow_id : String) (loaded : LoadOutput) (p : Process S) (e : Error)
      → (catch
          (run_loaded env workflow_id loaded)
          (fail_run env workflow_id (some loaded.run_id))
          p).0
        ≡ err e
      → is_chaos e ≡ false
      → Reported workflow_id loaded.run_id e
          (catch
            (run_loaded env workflow_id loaded)
            (fail_run env workflow_id (some loaded.run_id))
            p).1.calls
  unfolding catch
  run_result_Reported workflow_id loaded p e h calm =
      go (run_loaded env workflow_id loaded p).0 (run_loaded env workflow_id loaded p).1 h
    where
      thrown :
          (e' : Error) (q : Process S) (b : Bool)
          → is_chaos e' ≡ b
          → (fail_run env workflow_id (some loaded.run_id) e' q).0 ≡ err e
          → Reported workflow_id loaded.run_id e
              (fail_run env workflow_id (some loaded.run_id) e' q).1.calls
      thrown e' q true c k =
          let same : e' ≡ e =
            ap error_of (sym (fail_run_chaos workflow_id loaded.run_id e' q c) ∙ k) in
          cc
      thrown e' q false c k =
          let r = fail_run-Reported workflow_id loaded.run_id e' q c in
          let same : e' ≡ e = ap error_of (sym r.0 ∙ k) in rw (← same) r.1

      go :
          (r : Result Unit) (q : Process S)
          → (resume r (fail_run env workflow_id (some loaded.run_id)) q).0 ≡ err e
          → Reported workflow_id loaded.run_id e
              (resume r (fail_run env workflow_id (some loaded.run_id)) q).1.calls
      go (ok x) q k = cc
      go (err e') q k = thrown e' q (is_chaos e') refl k

-- The last two calls, newest first, of a failed run: what is published and what is written.
abbrev pub ended : Bool → String → String → Error → List Call → List Call
ended true workflow_id run_id e older =
    Call.emit_status_event_impure workflow_id canceled
    ∷ Call.update_ops_impure run_id (record {
      status = some canceled;
      last_step = none;
      error = some (some (message e));
      retry_count_inc = false;
      next_action = some (some "NONE");
    })
    ∷ older
ended false workflow_id run_id e older =
    Call.emit_status_event workflow_id failed
    ∷ Call.update_ops run_id (record {
      status = some retries_exceeded;
      last_step = none;
      error = some (some (message e));
      retry_count_inc = false;
      next_action = some (some "REPAIR");
    })
    ∷ older

reported-ended :
    (workflow_id run_id : String) (e : Error) (older : List Call)
    → terminal_event workflow_id e ∷ terminal_write run_id e ∷ older
      ≡ ended
          (error_name e === "DBOSWorkflowCancelledError"
            || includes (message e) "has been cancelled")
          workflow_id
          run_id
          e
          older
unfolding is_workflow_cancellation
reported-ended workflow_id run_id e older =
    elim (Bool-cases (
      error_name e === "DBOSWorkflowCancelledError" || includes (message e) "has been cancelled")) [
        | inl h ↦ rw h refl
        | inr h ↦ rw h refl
      ]

-- A run that was loaded and that fails, other than by a simulated crash, ends with two calls: the write
-- of its terminal state and then its last event. If the error is the engine's cancellation, by its name
-- or its message, these are the status canceled, the next action NONE and an event of canceled, outside
-- the workflow's steps; otherwise the status retries_exceeded, the next action REPAIR and an event of
-- failed. The error's message is written in both cases. Given that the operations of the report succeed.
pub run_intent_workflow-reported :
    {S Compiled Patched Decided Handle : Type 0} (env : Env S Compiled Patched Decided Handle)
    → Reports env.steps
    → (workflow_id : String) (p : Process S) (loaded : LoadOutput)
    → (env.steps.load workflow_id p.store).0 ≡ ok loaded
    → (e : Error) → (run_intent_workflow env workflow_id p).0 ≡ err e
    → is_chaos e ≡ false
    → (older : List Call) × ((run_intent_workflow env workflow_id p).1.calls
        ≡ ended
            (error_name e === "DBOSWorkflowCancelledError"
              || includes (message e) "has been cancelled")
            workflow_id
            loaded.run_id
            e
            older)
unfolding run_intent_workflow invoke
run_intent_workflow-reported env reports workflow_id p loaded found e failed_ calm =
    let (older, calls) : Reported env reports workflow_id loaded.run_id e
        (run_intent_workflow env workflow_id p).1.calls =
      rw found
        (run_result_Reported env reports workflow_id loaded _ e (rw found at failed_) calm) in
    (older, calls ∙ reported-ended workflow_id loaded.run_id e older)
