-- ===== src/Workflow/Run/Safety.antt =====
-- When a plan may be executed: the decision and the tasks, which come after the approval, not the
-- patches, which come before it (src/workflow/wf/run-intent.wf.ts).
use sisu_kodo.Prelude.{
  ℕ, String, Option, Bool, true, false, not, ◌||◌, List, [], ◌∷◌, any, ◌≡◌, refl,
}
use sisu_kodo.Failure.{Error}
use sisu_kodo.Budget.{RunBudget}
use sisu_kodo.Workflow.{Env, Process, Call}
use sisu_kodo.Workflow.Flags.{Intent, IntentRuntimeFlags, resolve_intent_runtime_flags}
use sisu_kodo.Workflow.Traces.{
  On, Keeps, calls_after, Keeps-invoke, Keeps-bind, Keeps-then, Keeps-throw, Triple-then,
  Triple-weaken, Triple-catch,
}
use sisu_kodo.Workflow.Gates.Outcomes.{
  is_execution, is_terminal_write, is_rollback, marks_step, is_quiet, is_yes, Keeps-quiet,
}
use sisu_kodo.Workflow.Plan.{assert_wall_clock_budget}
use sisu_kodo.Workflow.Plan.Approval.{
  is_inner, Keeps-assert_wall_clock_budget, Keeps-ask_user, Approved,
  wait_for_plan_approval-Approved, Keeps-inner, Keeps-fan_out, quiet-is_inner,
}
use sisu_kodo.Workflow.Run.{approve_and_execute, roll_back_and_throw, run_core_steps}

-- Every call that decides on a plan or executes it comes after a yes.
abbrev pub Guarded : List Call → Type 0
Guarded [] = Unit
Guarded (call ∷ cs) = (is_execution call ≡ true → any is_yes cs ≡ true) × Guarded cs

keep-Guarded :
    (call : Call) → is_quiet call ≡ true → (cs : List Call) → Guarded cs → Guarded (call ∷ cs)
keep-Guarded call q cs h = (
  λ w. go (is_execution call) (is_terminal_write call) (is_rollback call) (marks_step call) q w,
  h,
)
  where
    go : (x y z u : Bool) → not (x || y || z || u) ≡ true → x ≡ true → any is_yes cs ≡ true
    go false y z u h w = cc
    go true y z u h w = cc

module _ {S Compiled Patched Decided Handle : Type 0}
    (env : Env S Compiled Patched Decided Handle) where
  abbrev ApprovedGuarded : List Call → Type 0
  ApprovedGuarded = Approved env Guarded keep-Guarded

  keep-approved :
      (call : Call)
      → is_inner call ≡ true
      → (cs : List Call) → ApprovedGuarded cs
      → ApprovedGuarded (call ∷ cs)
  keep-approved call q cs (h, y) = ((λ _. y, h), rw y (go (is_yes call)))
    where
      go : (x : Bool) → (x || true) ≡ true
      go true = refl
      go false = refl

  Keeps-roll_back_and_throw :
      (A : Type 0) (run_id : String) (e : Error)
      → Keeps {S = S} {A = A} Guarded (roll_back_and_throw env run_id e)
  unfolding roll_back_and_throw
  Keeps-roll_back_and_throw A run_id e =
      Keeps-then Guarded _ _
        (Triple-catch (On Guarded) (λ _. On Guarded) (On Guarded) (On Guarded) _ _
          (Keeps-invoke Guarded _ _ (λ cs h. ((λ w. cc), h))) (λ _. Keeps-throw Guarded _))
        (Keeps-throw Guarded e)

  approve_and_execute-Guarded :
      (workflow_id run_id : String) (partition : Option String) (budget : Option RunBudget)
      (t0_ms : ℕ) (flags : IntentRuntimeFlags) (patched : Patched)
      → flags.parallel_approvals ≡ false
      → Keeps {S = S} Guarded
          (approve_and_execute env workflow_id run_id partition budget t0_ms flags patched)
  unfolding approve_and_execute
  approve_and_execute-Guarded workflow_id run_id partition budget t0_ms flags patched serial =
      Triple-then (On Guarded) (On ApprovedGuarded) _ (On Guarded) _ _
        (rw serial (wait_for_plan_approval-Approved env Guarded keep-Guarded _ _ _))
        (Triple-weaken (On ApprovedGuarded) (On ApprovedGuarded) _ (λ _. On ApprovedGuarded) _
          (On ApprovedGuarded) _ (λ w h. h) (λ x w h. h.0) (λ w h. h.0)
          (Keeps-bind ApprovedGuarded _ _ (Keeps-inner env ApprovedGuarded keep-approved _ _ refl)
            (λ decision.
              Keeps-then ApprovedGuarded _ _
                (Keeps-assert_wall_clock_budget env ApprovedGuarded
                  (quiet-is_inner env ApprovedGuarded keep-approved) budget t0_ms)
                (Keeps-then ApprovedGuarded _ _
                  (Keeps-inner env ApprovedGuarded keep-approved _ _ refl)
                  (Keeps-fan_out env ApprovedGuarded keep-approved _ _ _ _ _ _)))))

  run_core_steps-Guarded :
      (workflow_id run_id : String) (intent : Intent) (partition : Option String) (timeout_s : ℕ)
      (budget : Option RunBudget) (t0_ms : ℕ)
      → (resolve_intent_runtime_flags intent timeout_s).parallel_approvals ≡ false
      → Keeps {S = S} Guarded
          (run_core_steps env workflow_id run_id intent partition timeout_s budget t0_ms)
  unfolding run_core_steps
  run_core_steps-Guarded workflow_id run_id intent partition timeout_s budget t0_ms serial =
      Keeps-bind Guarded _ _ (Keeps-quiet env Guarded keep-Guarded _ _ refl) (λ compiled.
        Keeps-then Guarded _ _ (clock) (
          Keeps-then Guarded _ _ (Keeps-invoke Guarded _ _ (λ cs h. ((λ w. cc), h))) (
            Keeps-then Guarded _ _ (Keeps-ask_user env Guarded keep-Guarded _ _ _ _) (
              Keeps-bind Guarded _ _ (Keeps-quiet env Guarded keep-Guarded _ _ refl) (λ patched.
                Keeps-then Guarded _ _ (clock) (
                  Keeps-then Guarded _ _ (Keeps-invoke Guarded _ _ (λ cs h. ((λ w. cc), h))) (
                    Triple-catch (On Guarded) (λ _. On Guarded) (On Guarded) (On Guarded) _ _
                      (approve_and_execute-Guarded _ _ _ _ _
                        (resolve_intent_runtime_flags intent timeout_s) patched serial)
                      (λ e. Keeps-roll_back_and_throw _ run_id e))))))))
    where
      clock : Keeps {S = S} Guarded (assert_wall_clock_budget env budget t0_ms)
      clock = Keeps-assert_wall_clock_budget env Guarded keep-Guarded budget t0_ms

-- Without the hook for parallel approvals, and with no such call without a yes before it, the core of
-- a run makes its decision, builds its tasks, starts one, reads a result or saves one only after a
-- decision event with a yes, whatever the operations do and however the run ends. This says nothing of
-- the plan's patches, which are applied before the approval is asked for.
pub run_core_steps-execution_after_yes :
    {S Compiled Patched Decided Handle : Type 0} (env : Env S Compiled Patched Decided Handle)
    (workflow_id run_id : String) (intent : Intent) (partition : Option String) (timeout_s : ℕ)
    (budget : Option RunBudget) (t0_ms : ℕ)
    → (resolve_intent_runtime_flags intent timeout_s).parallel_approvals ≡ false
    → (p : Process S) → Guarded p.calls
    → Guarded
        (run_core_steps env workflow_id run_id intent partition timeout_s budget t0_ms p).1.calls
run_core_steps-execution_after_yes env workflow_id run_id intent partition timeout_s budget t0_ms
      serial p h =
    calls_after Guarded
      (run_core_steps env workflow_id run_id intent partition timeout_s budget t0_ms) p h
      (run_core_steps-Guarded env workflow_id run_id intent partition timeout_s budget t0_ms serial)
