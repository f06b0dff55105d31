-- ===== src/Workflow/Plan/Approval.antt =====
-- What approval of the plan, the question to the user and the fan-out do to the calls.
use sisu_kodo.Prelude.{
  ℕ, String, Option, none, some, Bool, true, false, not, ◌||◌, List, [], ◌∷◌, any, ◌≡◌, refl,
  Bool-cases, inl, inr, Text,
}
use sisu_kodo.Prelude.Json.{Json}
use sisu_kodo.Failure.Async.{Async}
use sisu_kodo.Budget.{RunBudget}
use sisu_kodo.Sandbox.{SbxRes, is_none, merge_results}
use sisu_kodo.Hitl.Decision.{Choice, yes, no}
use sisu_kodo.Workflow.{Env, Process, Call, invoke}
use sisu_kodo.Workflow.Traces.{
  On, Triple, Keeps, Keeps-lift, Keeps-invoke, Keeps-bind, Keeps-then, Keeps-pure, Keeps-throw,
  Keeps-promise_all, Triple-bind, Triple-then, Triple-pure, Triple-throw, Triple-weaken,
}
use sisu_kodo.Workflow.Gates.{HumanDecision, approve}
use sisu_kodo.Workflow.Gates.Outcomes.{
  is_execution, is_terminal_write, is_rollback, marks_step, is_quiet, is_yes, Keeps-quiet,
  Keeps-await_human, approve-Recorded, Recorded,
}
use sisu_kodo.Workflow.Plan.{
  assert_wall_clock_budget, forward_legacy_approval, require_choice, require_yes,
  wait_for_plan_approval, parallel_approvals, ask_user, require_answer, require_none, fan_out,
}

-- A call that writes no terminal status and rolls nothing back.
abbrev pub is_inner : Call → Bool
is_inner call = not (is_terminal_write call || is_rollback call)

module _ {S Compiled Patched Decided Handle : Type 0} (env : Env S Compiled Patched Decided Handle)
    (I : List Call → Type 0)
    (keep : (call : Call) → is_quiet call ≡ true → (cs : List Call) → I cs → I (call ∷ cs)) where
  pub Keeps-assert_wall_clock_budget :
      (budget : Option RunBudget) (t0_ms : ℕ)
      → Keeps {S = S} I (assert_wall_clock_budget env budget t0_ms)
  unfolding assert_wall_clock_budget
  Keeps-assert_wall_clock_budget none t0_ms = Keeps-pure I tt
  Keeps-assert_wall_clock_budget (some budget) t0_ms =
      Keeps-bind I _ _ (Keeps-quiet env I keep _ _ refl) (λ now. Keeps-lift I _)

  Keeps-require_answer : (answer : Option Json) → Keeps {S = S} I (require_answer env answer)
  unfolding require_answer
  Keeps-require_answer none = Keeps-throw I _
  Keeps-require_answer (some answer) = Keeps-pure I tt

  pub Keeps-ask_user :
      (ask : Bool) (workflow_id run_id : String) (timeout_s : ℕ)
      → Keeps {S = S} I (ask_user env ask workflow_id run_id timeout_s)
  unfolding ask_user
  Keeps-ask_user false workflow_id run_id timeout_s = Keeps-pure I tt
  Keeps-ask_user true workflow_id run_id timeout_s = Keeps-bind I _ _ (Keeps-lift I _) (λ gate_key.
      Keeps-then I _ _ (Keeps-quiet env I keep _ _ refl) (
        Keeps-then I _ _ (Keeps-quiet env I keep _ _ refl) (
          Keeps-bind I _ _ (Keeps-await_human env I keep _ _ _ _ _) (λ answer.
            Keeps-then I _ _ (Keeps-require_answer answer) (
              Keeps-then I _ _ (Keeps-quiet env I keep _ _ refl)
                (Keeps-quiet env I keep _ _ refl))))))

  Keeps-approve :
      (workflow_id run_id : String) (gate_key : Text) (ttl_s : ℕ)
      → Keeps {S = S} I (approve env workflow_id run_id gate_key ttl_s)
  Keeps-approve workflow_id run_id gate_key ttl_s =
      Triple-weaken (On I) (On I) _ _ (λ _. On I) (On I) (On I) (λ w h. h) (λ x w h. h.0) (λ w h. h)
        (approve-Recorded env I keep workflow_id run_id gate_key ttl_s)

  pub Keeps-parallel_approvals :
      (workflow_id run_id : String) (timeout_s : ℕ)
      → Keeps {S = S} I (parallel_approvals env workflow_id run_id timeout_s)
  unfolding parallel_approvals
  Keeps-parallel_approvals workflow_id run_id timeout_s = Keeps-bind I _ _ (Keeps-lift I _) (λ g1.
      Keeps-bind I _ _ (Keeps-lift I _) (λ g2.
        Keeps-then I _ _
          (Keeps-promise_all I _ (λ gate_key. Keeps-approve workflow_id run_id gate_key timeout_s)
            (g1 ∷ g2 ∷ []))
          (Keeps-pure I tt)))

  Keeps-forward_legacy_approval :
      (approved : Bool) (workflow_id : String) (gate_key : Text)
      → Keeps {S = S} I (forward_legacy_approval env approved workflow_id gate_key)
  unfolding forward_legacy_approval
  Keeps-forward_legacy_approval false workflow_id gate_key = Keeps-pure I tt
  Keeps-forward_legacy_approval true workflow_id gate_key =
      Keeps-bind I _ _ (Keeps-lift I _) (λ topic. Keeps-quiet env I keep _ _ refl)

  abbrev pub Approved : List Call → Type 0
  Approved cs = I cs × (any is_yes cs ≡ true)

  pub keep-Approved :
      (call : Call) → is_quiet call ≡ true → (cs : List Call) → Approved cs → Approved (call ∷ cs)
  keep-Approved call q cs (h, y) = (keep call q cs h, rw y (go (is_yes call)))
    where
      go : (x : Bool) → (x || true) ≡ true
      go true = refl
      go false = refl

  require_yes-Approved :
      (decision : HumanDecision)
      → Triple {W = Process S}
          (On (Recorded env I keep decision.choice))
          (require_yes env decision)
          (λ _. On Approved)
          (On I)
  unfolding require_yes
  require_yes-Approved decision = go decision.choice
    where
      go :
          (choice : Choice)
          → Triple {W = Process S}
              (On (Recorded env I keep choice))
              (require_choice env choice decision.rationale)
              (λ _. On Approved)
              (On I)
      go yes = Triple-pure _ _ _ tt (λ w h. (h.0, h.1 refl))
      go no = Triple-throw _ _ _ _ (λ w h. h.0)

  quiet_Approved :
      {A : Type 0} (call : Call) (m : _)
      → is_quiet call ≡ true
      → Triple {W = Process S} {A = A} (On Approved) (invoke call m) (λ _. On Approved) (On I)
  quiet_Approved call m q =
      Triple-weaken (On Approved) (On Approved) _ _ _ (On Approved) (On I) (λ w h. h) (λ x w h. h)
        (λ w h. h.0) (Keeps-quiet env Approved keep-Approved call m q)

  -- The approval of the plan returns only with a yes on record.
  pub wait_for_plan_approval-Approved :
      (workflow_id run_id : String) (timeout_s : ℕ)
      → Triple {W = Process S}
          (On I)
          (wait_for_plan_approval env workflow_id run_id timeout_s)
          (λ _. On Approved)
          (On I)
  unfolding wait_for_plan_approval
  wait_for_plan_approval-Approved workflow_id run_id timeout_s =
      Triple-bind (On I) (λ _. On I) _ (On I) _ _ (Keeps-lift I _)
        (λ gate_key. Triple-then (On I) (On I) _ (On I) _ _ (Keeps-quiet env I keep _ _ refl) (
          Triple-then (On I) (On I) _ (On I) _ _ (Keeps-quiet env I keep _ _ refl) (
            Triple-then (On I) (On I) _ (On I) _ _ (Keeps-quiet env I keep _ _ refl) (
              Triple-bind (On I) (λ _. On I) _ (On I) _ _ (Keeps-quiet env I keep _ _ refl)
                (λ compat.
                  Triple-then (On I) (On I) _ (On I) _ _ (Keeps-forward_legacy_approval _ _ _) (
                    Triple-bind (On I) _ _ (On I) _ _ (approve-Recorded env I keep _ _ _ _)
                      (λ decision.
                        Triple-then _ (On Approved) _ (On I) _ _ (require_yes-Approved decision) (
                          Triple-then _ (On Approved) _ (On I) _ _ (quiet_Approved _ _ refl) (
                            Triple-then _ (On Approved) _ (On I) _ _ (quiet_Approved _ _ refl)
                              (quiet_Approved _ _ refl))))))))))

module _ {S Compiled Patched Decided Handle : Type 0} (env : Env S Compiled Patched Decided Handle)
    (I : List Call → Type 0)
    (keep : (call : Call) → is_inner call ≡ true → (cs : List Call) → I cs → I (call ∷ cs)) where
  pub Keeps-inner :
      {A : Type 0} (call : Call) (m : Async S A)
      → is_inner call ≡ true
      → Keeps {S = S} I (invoke call m)
  Keeps-inner call m q = Keeps-invoke I call m (keep call q)

  Keeps-require_none : (r : SbxRes) → Keeps {S = S} I (require_none env r)
  unfolding require_none
  Keeps-require_none r = elim (Bool-cases (is_none r.err_code)) [
    | inl e ↦ rw e (Keeps-pure I tt)
    | inr e ↦ rw e (Keeps-throw I _)
  ]

  pub quiet-is_inner :
      (call : Call) → is_quiet call ≡ true → (cs : List Call) → I cs → I (call ∷ cs)
  quiet-is_inner call q =
      keep call
        (go (is_execution call) (is_terminal_write call) (is_rollback call) (marks_step call) q)
    where
      go : (x y z u : Bool) → not (x || y || z || u) ≡ true → not (y || z) ≡ true
      go false false false u h = refl
      go false false true u h = cc
      go false true z u h = cc
      go true y z u h = cc

  pub Keeps-fan_out :
      (intent_id run_id : String) (partition : Option String) (budget : Option RunBudget)
      (t0_ms : ℕ) (decision : Decided)
      → Keeps {S = S} I (fan_out env intent_id run_id partition budget t0_ms decision)
  unfolding fan_out
  Keeps-fan_out intent_id run_id partition budget t0_ms decision =
      Keeps-bind I _ _ (Keeps-inner _ _ refl) (λ tasks. Keeps-then I _ _ (Keeps-lift I _) (
        Keeps-then I _ _ (Keeps-assert_wall_clock_budget env I quiet-is_inner budget t0_ms) (
          Keeps-bind I _ _ (Keeps-promise_all I _ (λ task. Keeps-inner _ _ refl) _) (λ handles.
            Keeps-bind I _ _ (Keeps-promise_all I _ (λ h. Keeps-inner _ _ refl) _) (λ results.
              Keeps-then I _ _
                (Keeps-then I _ _
                  (Keeps-then I _ _
                    (Keeps-then I _ _
                      (Keeps-then I _ _ (Keeps-lift I _)
                        (Keeps-assert_wall_clock_budget env I quiet-is_inner budget t0_ms))
                      (Keeps-inner _ _ refl))
                    (Keeps-inner _ _ refl))
                  (Keeps-require_none (merge_results results)))
                (Keeps-pure I _))))))
