-- ===== src/Workflow/Run/Failing.antt =====
-- A run that fails: what was applied is rolled back, and the run's terminal state is written.
use sisu_kodo.Prelude.{
  ℕ, String, Option, none, some, Bool, true, false, not, ◌||◌, List, ◌∷◌, any, ◌≡◌, refl, inl, inr,
  ◌⊎◌, opt_eq, is_some,
}
use sisu_kodo.Failure.{Error, err}
use sisu_kodo.Failure.Async.{Async}
use sisu_kodo.Budget.{RunBudget}
use sisu_kodo.Workflow.{Env, Process, Call}
use sisu_kodo.Workflow.Flags.{Intent}
use sisu_kodo.Workflow.Traces.{
  On, Triple, Keeps, after_throw, Triple-any, Keeps-invoke, Keeps-throw, Triple-bind, Triple-then,
  Triple-throw, Triple-weaken, Triple-catch, Triple-invoke,
}
use sisu_kodo.Workflow.Gates.Outcomes.{
  is_execution, is_terminal_write, is_rollback, marks_step, is_quiet, Keeps-quiet,
}
use sisu_kodo.Workflow.Plan.{last_step_is, assert_wall_clock_budget}
use sisu_kodo.Workflow.Plan.Approval.{Keeps-assert_wall_clock_budget, Keeps-ask_user}
use sisu_kodo.Workflow.Run.{roll_back_and_throw, run_core_steps}

-- The call that records the patches as applied.
abbrev pub marks_patched : Call → Bool
marks_patched (Call.update_ops run_id ops) = opt_eq ops.last_step (some "ApplyPatchST")
marks_patched _ = false

abbrev pub Unpatched : List Call → Type 0
Unpatched cs = any marks_patched cs ≡ false

-- The newest call rolls the run's patches back.
abbrev pub RolledBack : String → List Call → Type 0
RolledBack run_id cs =
    (older : List Call) × (cs ≡ Call.rollback_applied_patches run_id "ApplyPatchST" ∷ older)

-- The newest call is the one that records the patches as applied.
abbrev pub Marking : String → List Call → Type 0
Marking run_id cs =
    (older : List Call) × (cs ≡ Call.update_ops run_id (last_step_is "ApplyPatchST") ∷ older)

abbrev pub Settled : String → List Call → Type 0
Settled run_id cs = Unpatched cs ⊎ (Marking run_id cs ⊎ RolledBack run_id cs)

quiet_unmarked : (call : Call) → marks_step call ≡ false → marks_patched call ≡ false
quiet_unmarked (Call.update_ops run_id ops) h = go ops.last_step h
  where
    go : (o : Option String) → is_some o ≡ false → opt_eq o (some "ApplyPatchST") ≡ false
    go none h = refl
    go (some s) h = cc
quiet_unmarked _ h = refl

keep-Unpatched :
    (call : Call) → is_quiet call ≡ true → (cs : List Call) → Unpatched cs → Unpatched (call ∷ cs)
keep-Unpatched call q cs h =
    rw
      (quiet_unmarked call
        (go (is_execution call) (is_terminal_write call) (is_rollback call) (marks_step call) q))
      h
  where
    go : (x y z u : Bool) → not (x || y || z || u) ≡ true → u ≡ false
    go x y z false h = refl
    go false false false true h = cc
    go false false true true h = cc
    go false true z true h = cc
    go true y z true h = cc

module _ {S Compiled Patched Decided Handle : Type 0}
    (env : Env S Compiled Patched Decided Handle) where
  roll_back_RolledBack :
      (A : Type 0) (run_id : String) (e : Error)
      → Triple {W = Process S} {A = A}
          (λ _. Unit)
          (roll_back_and_throw env run_id e)
          (λ _ _. Unit)
          (On (RolledBack run_id))
  unfolding roll_back_and_throw
  roll_back_RolledBack A run_id e =
      Triple-then _ (On (RolledBack run_id)) _ (On (RolledBack run_id)) _ _
        (Triple-catch _ _ (On (RolledBack run_id)) (On (RolledBack run_id)) _ _
          (Triple-invoke (λ _. Unit) (RolledBack run_id) _ _ (λ cs _. (cs, refl)))
          (λ rollback_error. Keeps-throw (RolledBack run_id) _))
        (Triple-throw _ _ _ e (λ w h. h))

  run_core_steps-Settled :
      (workflow_id run_id : String) (intent : Intent) (partition : Option String) (timeout_s : ℕ)
      (budget : Option RunBudget) (t0_ms : ℕ)
      → Triple {W = Process S}
          (On Unpatched)
          (run_core_steps env workflow_id run_id intent partition timeout_s budget t0_ms)
          (λ _ _. Unit)
          (On (Settled run_id))
  unfolding run_core_steps
  run_core_steps-Settled workflow_id run_id intent partition timeout_s budget t0_ms =
      Triple-bind (On Unpatched) (λ _. On Unpatched) _ _ _ _
        (early (Keeps-quiet env Unpatched keep-Unpatched _ _ refl))
        (λ compiled. Triple-then (On Unpatched) (On Unpatched) _ _ _ _ (early clock) (
          Triple-then (On Unpatched) (On Unpatched) _ _ _ _
            (early (Keeps-invoke Unpatched _ _ (λ cs h. h)))
            (Triple-then (On Unpatched) (On Unpatched) _ _ _ _
              (early (Keeps-ask_user env Unpatched keep-Unpatched _ _ _ _))
              (Triple-bind (On Unpatched) (λ _. On Unpatched) _ _ _ _
                (early (Keeps-quiet env Unpatched keep-Unpatched _ _ refl))
                (λ patched. Triple-then (On Unpatched) (On Unpatched) _ _ _ _ (early clock) (
                  Triple-then (On Unpatched) (λ _. Unit) _ _ _ _
                    (Triple-weaken (On Unpatched) (On Unpatched) _ _ _ (On (Marking run_id)) _
                      (λ w h. h) (λ x w h. tt) (λ w h. inr (inl h))
                      (Triple-invoke Unpatched (Marking run_id) _ _ (λ cs h. (cs, refl))))
                    (Triple-catch _ _ (λ _. Unit) _ _ _ (Triple-any _ _)
                      (λ e.
                        Triple-weaken (λ _. Unit) (λ _. Unit) _ _ _ (On (RolledBack run_id)) _
                          (λ w h. h) (λ x w h. h) (λ w h. inr (inr h))
                          (roll_back_RolledBack _ run_id e)))))))))
    where
      early :
          {A : Type 0} {m : Async (Process S) A}
          → Keeps Unpatched m
          → Triple (On Unpatched) m (λ _. On Unpatched) (On (Settled run_id))
      early t =
          Triple-weaken (On Unpatched) (On Unpatched) _ _ _ (On Unpatched) _ (λ w h. h) (λ x w h. h)
            (λ w h. inl h) t

      clock : Keeps {S = S} Unpatched (assert_wall_clock_budget env budget t0_ms)
      clock = Keeps-assert_wall_clock_budget env Unpatched keep-Unpatched budget t0_ms

-- When the core of a run throws, its newest call is the rollback of the run's patches, unless the
-- patches were not recorded as applied yet, or the write of that record is the call that failed.
pub run_core_steps-rolled_back :
    {S Compiled Patched Decided Handle : Type 0} (env : Env S Compiled Patched Decided Handle)
    (workflow_id run_id : String) (intent : Intent) (partition : Option String) (timeout_s : ℕ)
    (budget : Option RunBudget) (t0_ms : ℕ) (p : Process S)
    → any marks_patched p.calls ≡ false
    → (e : Error)
    → (run_core_steps env workflow_id run_id intent partition timeout_s budget t0_ms p).0 ≡ err e
    → Settled run_id
        (run_core_steps env workflow_id run_id intent partition timeout_s budget t0_ms p).1.calls
run_core_steps-rolled_back env workflow_id run_id intent partition timeout_s budget t0_ms p h e
      thrown =
    after_throw (On Unpatched) _ (λ _ _. Unit) (On (Settled run_id))
      (run_core_steps-Settled env workflow_id run_id intent partition timeout_s budget t0_ms) p h e
      thrown
