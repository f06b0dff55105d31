-- ===== src/Workflow/Gates/Outcomes.antt =====
-- What waiting for a person does to the calls: only quiet ones are made, and a yes is on record
-- before it is returned.
use sisu_kodo.Prelude.{
  ℕ, String, Option, none, some, Bool, true, false, not, ◌||◌, List, ◌∷◌, any, ◌≡◌, refl,
  if◌then◌else◌, Text, is_some,
}
use sisu_kodo.Prelude.Json.{Json}
use sisu_kodo.Failure.{HitlChaosPhase, chaos_crash, a, b, c, d, Result, ok, err}
use sisu_kodo.Failure.Async.{Async}
use sisu_kodo.Runs.{RunStatus, is_terminal}
use sisu_kodo.Hitl.Decision.{Choice, yes, no}
use sisu_kodo.Workflow.{Env, Process, Call, GateDecision, GateResultState, Event, invoke}
use sisu_kodo.Workflow.Traces.{
  On, Outcome, Triple, Keeps, Keeps-lift, Keeps-invoke, Keeps-bind, Keeps-then, Keeps-pure,
  Triple-bind, Triple-then, Triple-pure, Triple-invoke, Triple-weaken,
}
use sisu_kodo.Workflow.Gates.{
  chaos_crash_at, emit_prompt, settle, receive, await_human, record_decision, decide_reply, approve,
}

-- The calls that decide on a plan and execute it in sandboxes. The patches of a plan are not among them:
-- they are applied before the approval.
abbrev pub is_execution : Call → Bool
is_execution (Call.decide run_id) = true
is_execution (Call.build_tasks run_id) = true
is_execution (Call.start_task task) = true
is_execution Call.get_result = true
is_execution (Call.save_execute_step run_id r) = true
is_execution _ = false

abbrev given_terminal : Option RunStatus → Bool
given_terminal none = false
given_terminal (some s) = is_terminal s

-- The calls that write or publish a terminal status.
abbrev pub is_terminal_write : Call → Bool
is_terminal_write (Call.update_status run_id s) = is_terminal s
is_terminal_write (Call.update_ops run_id ops) = given_terminal ops.status
is_terminal_write (Call.update_ops_impure run_id ops) = given_terminal ops.status
is_terminal_write (Call.emit_status_event workflow_id s) = is_terminal s
is_terminal_write (Call.emit_status_event_impure workflow_id s) = is_terminal s
is_terminal_write _ = false

abbrev pub is_rollback : Call → Bool
is_rollback (Call.rollback_applied_patches run_id step) = true
is_rollback _ = false

-- The calls that record a step as done.
abbrev pub marks_step : Call → Bool
marks_step (Call.update_ops run_id ops) = is_some ops.last_step
marks_step _ = false

abbrev pub is_quiet : Call → Bool
is_quiet call =
    not (is_execution call || is_terminal_write call || is_rollback call || marks_step call)

-- The event of a decision that is a yes.
abbrev pub is_yes : Call → Bool
is_yes (Call.set_event key (Event.decision g)) = elim g.decision [ yes ↦ true | no ↦ false ]
is_yes _ = false

module _ {S Compiled Patched Decided Handle : Type 0} (env : Env S Compiled Patched Decided Handle)
    (I : List Call → Type 0)
    (keep : (call : Call) → is_quiet call ≡ true → (cs : List Call) → I cs → I (call ∷ cs)) where
  pub Keeps-quiet :
      {A : Type 0} (call : Call) (m : Async S A)
      → is_quiet call ≡ true
      → Keeps {S = S} I (invoke call m)
  Keeps-quiet call m q = Keeps-invoke I call m (keep call q)

  Keeps-chaos_crash_at :
      (phase : HitlChaosPhase) (workflow_id : String)
      → Keeps {S = S} I (chaos_crash_at phase workflow_id)
  unfolding chaos_crash_at
  Keeps-chaos_crash_at phase workflow_id = record { outcome = λ p h. go p h _ _ }
    where
      go :
          (p : Process S)
          → I p.calls
          → (x y : Bool)
          → (let r : Result (Unit {0}) × Process S =
                if x
                then (if y then (ok tt, p) else (
                  err (chaos_crash phase workflow_id),
                  record p { consumed = (workflow_id, phase) ∷ p.consumed },
                ))
                else (ok tt, p) in
              Outcome (λ _ q. I q.calls) (λ q. I q.calls) r.0 r.1)
      go p h true true = h
      go p h true false = h
      go p h false y = h

  Keeps-emit_prompt :
      (emitted : Bool) (workflow_id run_id : String) (gate_key : Text) (form : Json) (ttl_s : ℕ)
      (prompt_key topic : Text) (now : ℕ)
      → Keeps {S = S} I
          (emit_prompt env emitted workflow_id run_id gate_key form ttl_s prompt_key topic now)
  unfolding emit_prompt
  Keeps-emit_prompt true workflow_id run_id gate_key form ttl_s prompt_key topic now =
      Keeps-pure I tt
  Keeps-emit_prompt false workflow_id run_id gate_key form ttl_s prompt_key topic now =
      Keeps-then I _ _ (Keeps-quiet _ _ refl)
        (Keeps-then I _ _ (Keeps-chaos_crash_at b workflow_id) (Keeps-quiet _ _ refl))

  Keeps-settle :
      (gate_key result_key : Text) (state : GateResultState) (payload : Option Json)
      (actor reason : Option String)
      → Keeps {S = S} I (settle env gate_key result_key state payload actor reason)
  unfolding settle
  Keeps-settle gate_key result_key state payload actor reason =
      Keeps-bind I _ _ (Keeps-quiet _ _ refl) (λ at. Keeps-then I _ _ (Keeps-lift I _) (
        Keeps-then I _ _ (Keeps-quiet _ _ refl) (
          Keeps-bind I _ _ (Keeps-quiet _ _ refl) (λ later.
            Keeps-then I _ _ (Keeps-lift I _)
              (Keeps-bind I _ _ (Keeps-lift I _) (λ key. Keeps-quiet _ _ refl))))))

  Keeps-receive :
      (workflow_id : String) (gate_key result_key : Text) (reply : Option Json)
      → Keeps {S = S} I (receive env workflow_id gate_key result_key reply)
  unfolding receive
  Keeps-receive workflow_id gate_key result_key none =
      Keeps-then I _ _ (Keeps-settle _ _ _ _ _ _) (Keeps-pure I _)
  Keeps-receive workflow_id gate_key result_key (some reply) =
      Keeps-then I _ _ (Keeps-chaos_crash_at d workflow_id)
        (Keeps-then I _ _ (Keeps-settle _ _ _ _ _ _) (Keeps-pure I _))

  pub Keeps-await_human :
      (workflow_id run_id : String) (gate_key : Text) (form : Json) (ttl_s : ℕ)
      → Keeps {S = S} I (await_human env workflow_id run_id gate_key form ttl_s)
  unfolding await_human
  Keeps-await_human workflow_id run_id gate_key form ttl_s =
      Keeps-bind I _ _ (Keeps-lift I _) (λ prompt_key.
        Keeps-bind I _ _ (Keeps-lift I _) (λ result_key. Keeps-bind I _ _ (Keeps-lift I _) (λ topic.
          Keeps-then I _ _ (Keeps-chaos_crash_at a workflow_id) (
            Keeps-bind I _ _ (Keeps-quiet _ _ refl) (λ emitted.
              Keeps-bind I _ _ (Keeps-quiet _ _ refl) (λ now.
                Keeps-then I _ _ (Keeps-emit_prompt _ _ _ _ _ _ _ _ _) (
                  Keeps-then I _ _ (Keeps-chaos_crash_at c workflow_id) (
                    Keeps-bind I _ _ (Keeps-quiet _ _ refl)
                      (λ reply. Keeps-receive workflow_id gate_key result_key reply)))))))))

  -- The calls keep the property, and a yes is among them.
  abbrev pub Recorded : Choice → List Call → Type 0
  Recorded choice cs = I cs × (choice ≡ yes → any is_yes cs ≡ true)

  Recorded-event :
      (key : Text) (g : GateDecision) (cs : List Call)
      → I cs
      → Recorded g.decision (Call.set_event key (Event.decision g) ∷ cs)
  Recorded-event key g cs h = (keep _ refl cs h, λ e. rw e refl)

  record_decision-Recorded :
      (key : Text) (choice : Choice) (rationale : Option String)
      → Triple {W = Process S}
          (On I)
          (record_decision env key choice rationale)
          (λ decision. On (Recorded decision.choice))
          (On I)
  unfolding record_decision
  record_decision-Recorded key choice rationale =
      Triple-bind (On I) (λ _. On I) _ (On I) _ _ (Keeps-quiet _ _ refl)
        (λ at. Triple-then (On I) (On I) _ (On I) _ _ (Keeps-lift I _) (
          Triple-then (On I) (On (Recorded choice)) _ (On I) _ _
            (Triple-weaken (On I) (On I) _ _ _ (On (Recorded choice)) (On I) (λ w h. h) (λ x w h. h)
              (λ w h. h.0) (Triple-invoke I (Recorded choice) _ _ (Recorded-event key _)))
            (Triple-pure _ _ _ _ (λ w h. h))))

  pub approve-Recorded :
      (workflow_id run_id : String) (gate_key : Text) (ttl_s : ℕ)
      → Triple {W = Process S}
          (On I)
          (approve env workflow_id run_id gate_key ttl_s)
          (λ decision. On (Recorded decision.choice))
          (On I)
  unfolding approve
  approve-Recorded workflow_id run_id gate_key ttl_s =
      Triple-bind (On I) (λ _. On I) _ (On I) _ _ (Keeps-lift I _)
        (λ key.
          Triple-bind (On I) (λ _. On I) _ (On I) _ _ (Keeps-await_human _ _ _ _ _)
            (λ reply. of_reply key reply))
    where
      of_reply :
          (key : Text) (reply : Option Json)
          → Triple {W = Process S}
              (On I)
              (decide_reply env workflow_id gate_key key reply)
              (λ decision. On (Recorded decision.choice))
              (On I)
      of_reply key none =
          Triple-then (On I) (On I) _ (On I) _ _ (Keeps-quiet _ _ refl)
            (record_decision-Recorded _ _ _)
      of_reply key (some reply) = record_decision-Recorded _ _ _
