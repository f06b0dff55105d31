-- ===== src/Workflow/Run/Crashing.antt =====
-- A simulated crash of the process leaves the run's state alone.
use sisu_kodo.Prelude.{
  ℕ, String, Option, some, Bool, true, false, not, ◌||◌, List, ◌∷◌, any, ◌≡◌, refl, sym, ap, ◌∙◌,
}
use sisu_kodo.Failure.{Error, Result, ok, err}
use sisu_kodo.Failure.Async.{Async, throw, catch, resume}
use sisu_kodo.Budget.{RunBudget}
use sisu_kodo.Runs.{RunStatus}
use sisu_kodo.Workflow.{Env, Process, Call, LoadOutput, invoke}
use sisu_kodo.Workflow.Flags.{Intent, IntentRuntimeFlags, resolve_intent_runtime_flags}
use sisu_kodo.Workflow.Traces.{
  On, Triple, Keeps, after_throw, Keeps-lift, Keeps-invoke, Keeps-bind, Keeps-then, Keeps-throw,
  Triple-bind, Triple-then, Triple-weaken, Triple-catch,
}
use sisu_kodo.Workflow.Gates.Outcomes.{is_terminal_write, is_rollback, is_quiet, Keeps-quiet}
use sisu_kodo.Workflow.Plan.{assert_wall_clock_budget}
use sisu_kodo.Workflow.Plan.Approval.{
  is_inner, Keeps-assert_wall_clock_budget, Keeps-ask_user, Keeps-parallel_approvals, Approved,
  wait_for_plan_approval-Approved, Keeps-inner, Keeps-fan_out, quiet-is_inner,
}
use sisu_kodo.Workflow.Run.{
  approve_plan, approve_and_execute, roll_back_and_throw, run_core_steps, run_loaded, fail_run,
  run_intent_workflow, is_chaos,
}
use sisu_kodo.Workflow.Run.Reporting.{Reports, error_of, fail_run-Reported}

-- No terminal status was written or published.
abbrev pub Unfinished : List Call → Type 0
Unfinished cs = any is_terminal_write cs ≡ false

inner_Unfinished :
    (call : Call) → is_inner call ≡ true → (cs : List Call) → Unfinished cs → Unfinished (call ∷ cs)
inner_Unfinished call q cs h = rw (go (is_terminal_write call) (is_rollback call) q) h
  where
    go : (t r : Bool) → not (t || r) ≡ true → t ≡ false
    go false r h = refl
    go true r h = cc

-- An operation that does not fail.
never_throws :
    {S : Type 0} (P E : Process S → Type 0) (call : Call) (m : Async S Unit)
    → ((s : S) → (m s).0 ≡ ok tt)
    → Triple P (invoke call m) (λ _ _. Unit) E
unfolding invoke
never_throws P E call m k = record { outcome = λ p h. rw (k p.store) tt }

module _ {S Compiled Patched Decided Handle : Type 0}
    (env : Env S Compiled Patched Decided Handle) where
  quiet :
      (call : Call)
      → is_quiet call ≡ true
      → (cs : List Call) → Unfinished cs
      → Unfinished (call ∷ cs)
  quiet = quiet-is_inner env Unfinished inner_Unfinished

  clock :
      (budget : Option RunBudget) (t0_ms : ℕ)
      → Keeps {S = S} Unfinished (assert_wall_clock_budget env budget t0_ms)
  clock = Keeps-assert_wall_clock_budget env Unfinished quiet

  Keeps-approve_plan :
      (parallel : Bool) (workflow_id run_id : String) (timeout_s : ℕ)
      → Keeps {S = S} Unfinished (approve_plan env parallel workflow_id run_id timeout_s)
  unfolding approve_plan
  Keeps-approve_plan true workflow_id run_id timeout_s =
      Keeps-parallel_approvals env Unfinished quiet workflow_id run_id timeout_s
  Keeps-approve_plan false workflow_id run_id timeout_s =
      Triple-weaken (On Unfinished) (On Unfinished) _ (λ _. On (Approved env Unfinished quiet))
        (λ _. On Unfinished) (On Unfinished) (On Unfinished) (λ w h. h) (λ x w h. h.0) (λ w h. h)
        (wait_for_plan_approval-Approved env Unfinished quiet workflow_id run_id timeout_s)

  Keeps-approve_and_execute :
      (workflow_id run_id : String) (partition : Option String) (budget : Option RunBudget)
      (t0_ms : ℕ) (flags : IntentRuntimeFlags) (patched : Patched)
      → Keeps {S = S} Unfinished
          (approve_and_execute env workflow_id run_id partition budget t0_ms flags patched)
  unfolding approve_and_execute
  Keeps-approve_and_execute workflow_id run_id partition budget t0_ms flags patched =
      Keeps-then Unfinished _ _
        (Keeps-approve_plan flags.parallel_approvals workflow_id run_id
          flags.plan_approval_timeout_s)
        (Keeps-bind Unfinished _ _ (Keeps-inner env Unfinished inner_Unfinished _ _ refl)
          (λ decision. Keeps-then Unfinished _ _ (clock budget t0_ms) (
            Keeps-then Unfinished _ _ (Keeps-inner env Unfinished inner_Unfinished _ _ refl)
              (Keeps-fan_out env Unfinished inner_Unfinished _ _ _ _ _ _))))

  Keeps-roll_back_and_throw :
      (A : Type 0) (run_id : String) (e : Error)
      → Keeps {S = S} {A = A} Unfinished (roll_back_and_throw env run_id e)
  unfolding roll_back_and_throw
  Keeps-roll_back_and_throw A run_id e =
      Keeps-then Unfinished _ _
        (Triple-catch (On Unfinished) (λ _. On Unfinished) (On Unfinished) (On Unfinished) _ _
          (Keeps-invoke Unfinished _ _ (λ cs h. h)) (λ _. Keeps-throw Unfinished _))
        (Keeps-throw Unfinished e)

  Keeps-run_core_steps :
      (workflow_id run_id : String) (intent : Intent) (partition : Option String) (timeout_s : ℕ)
      (budget : Option RunBudget) (t0_ms : ℕ)
      → Keeps {S = S} Unfinished
          (run_core_steps env workflow_id run_id intent partition timeout_s budget t0_ms)
  unfolding run_core_steps
  Keeps-run_core_steps workflow_id run_id intent partition timeout_s budget t0_ms =
      Keeps-bind Unfinished _ _ (Keeps-quiet env Unfinished quiet _ _ refl) (λ compiled.
        Keeps-then Unfinished _ _ (clock budget t0_ms) (
          Keeps-then Unfinished _ _ (Keeps-invoke Unfinished _ _ (λ cs h. h)) (
            Keeps-then Unfinished _ _ (Keeps-ask_user env Unfinished quiet _ _ _ _) (
              Keeps-bind Unfinished _ _ (Keeps-quiet env Unfinished quiet _ _ refl) (λ patched.
                Keeps-then Unfinished _ _ (clock budget t0_ms) (
                  Keeps-then Unfinished _ _ (Keeps-invoke Unfinished _ _ (λ cs h. h)) (
                    Triple-catch (On Unfinished) (λ _. On Unfinished) (On Unfinished)
                      (On Unfinished) _ _
                      (Keeps-approve_and_execute _ _ _ _ _
                        (resolve_intent_runtime_flags intent timeout_s) patched)
                      (λ e. Keeps-roll_back_and_throw _ run_id e))))))))

  module _ (reports : Reports env.steps)
      (update_status_ok : (run_id : String) (status : RunStatus) (s : S)
        → (env.steps.update_status run_id status s).0 ≡ ok tt) where
    run_loaded-Unfinished :
        (workflow_id : String) (loaded : LoadOutput)
        → Triple {W = Process S}
            (On Unfinished)
            (run_loaded env workflow_id loaded)
            (λ _ _. Unit)
            (On Unfinished)
    unfolding run_loaded
    run_loaded-Unfinished workflow_id loaded =
        Triple-bind (On Unfinished) (λ _. On Unfinished) _ _ _ _
          (Keeps-quiet env Unfinished quiet _ _ refl)
          (λ started.
            Triple-then (On Unfinished) (On Unfinished) _ _ _ _
              (Keeps-quiet env Unfinished quiet _ _ refl)
              (Triple-then (On Unfinished) (On Unfinished) _ _ _ _
                (Keeps-quiet env Unfinished quiet _ _ refl)
                (Triple-then (On Unfinished) (On Unfinished) _ _ _ _ (Keeps-lift Unfinished _) (
                  Triple-then (On Unfinished) (On Unfinished) _ _ _ _
                    (Keeps-run_core_steps _ _ _ _ _ _ _)
                    (Triple-then (On Unfinished) (λ _. Unit) _ _ _ _
                      (never_throws _ _ _ _ (λ x. update_status_ok _ _ x))
                      (never_throws _ _ _ _ (λ x. reports.emit_status_event_ok _ _ x)))))))

    caught_Unfinished :
        (workflow_id : String) (loaded : LoadOutput) (p : Process S)
        → Unfinished p.calls
        → (e : Error)
        → (catch
            (run_loaded env workflow_id loaded)
            (fail_run env workflow_id (some loaded.run_id))
            p).0
          ≡ err e
        → is_chaos e ≡ true
        → Unfinished
            (catch
              (run_loaded env workflow_id loaded)
              (fail_run env workflow_id (some loaded.run_id))
              p).1.calls
    unfolding catch fail_run throw
    caught_Unfinished workflow_id loaded p h e failed chaos =
        go (run_loaded env workflow_id loaded p).0 (run_loaded env workflow_id loaded p).1
          (λ e' thrown.
            after_throw (On Unfinished) (run_loaded env workflow_id loaded) _ _
              (run_loaded-Unfinished workflow_id loaded) p h e' thrown)
          failed
      where
        crashed :
            (e' : Error) (q : Process S) (b : Bool)
            → is_chaos e' ≡ b
            → Unfinished q.calls
            → (fail_run env workflow_id (some loaded.run_id) e' q).0 ≡ err e
            → Unfinished (fail_run env workflow_id (some loaded.run_id) e' q).1.calls
        crashed e' q true c u k = rw c u
        crashed e' q false c u k =
            let same : e' ≡ e =
              ap error_of
                (sym (fail_run-Reported env reports workflow_id loaded.run_id e' q c).0 ∙ k) in
            cc

        go :
            (r : Result Unit) (q : Process S)
            → ((e' : Error) → r ≡ err e' → Unfinished q.calls)
            → (resume r (fail_run env workflow_id (some loaded.run_id)) q).0 ≡ err e
            → Unfinished (resume r (fail_run env workflow_id (some loaded.run_id)) q).1.calls
        go (ok x) q u k = cc
        go (err e') q u k = crashed e' q (is_chaos e') refl (u e' refl) k

-- A run that was loaded and that ends in a simulated crash has written and published no terminal
-- status; given that none was written before it and that the operations of the report, and the status
-- updates, succeed.
pub run_intent_workflow-crashed :
    {S Compiled Patched Decided Handle : Type 0} (env : Env S Compiled Patched Decided Handle)
    → Reports env.steps
    → ((run_id : String) (status : RunStatus) (s : S)
        → (env.steps.update_status run_id status s).0 ≡ ok tt)
    → (workflow_id : String) (p : Process S) (loaded : LoadOutput)
    → (env.steps.load workflow_id p.store).0 ≡ ok loaded
    → any is_terminal_write p.calls ≡ false
    → (e : Error) → (run_intent_workflow env workflow_id p).0 ≡ err e
    → is_chaos e ≡ true
    → any is_terminal_write (run_intent_workflow env workflow_id p).1.calls ≡ false
unfolding run_intent_workflow invoke
run_intent_workflow-crashed env reports updates workflow_id p loaded found clean e failed chaos =
    rw found (
      caught_Unfinished env reports updates workflow_id loaded _ clean e (rw found at failed) chaos)
