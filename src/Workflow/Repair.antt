-- ===== src/Workflow/Repair.antt =====
-- The repair of a failed run: repairRunWorkflow of src/workflow/wf/run-intent.wf.ts.
use sisu_kodo.Prelude.{ℕ, String, Option, none, some, true, List, [], ◌∷◌, ◌===◌, if◌then◌else◌}
use sisu_kodo.Prelude.Json.{Json}
use sisu_kodo.Failure.{Error, Result, ok, err}
use sisu_kodo.Failure.Async.{Async, pure, throw, lift, catch, ◌>>=◌, ◌>>◌}
use sisu_kodo.Budget.{RunBudget}
use sisu_kodo.Runs.{succeeded, repairing}
use sisu_kodo.Workflow.{Env, Process, invoke, RunStep, RunHead, Call}
use sisu_kodo.Workflow.Plan.{
  no_ops, last_step_is, update_status, emit_status_event, update_ops, assert_wall_clock_budget,
  wait_for_plan_approval, require_none, fan_out,
}
use sisu_kodo.Workflow.Run.{
  emit_budget_artifact_if_needed, persist_terminal_failure, emit_terminal_status,
}

-- `checkpoints.get(stepId)`: of two rows of a step the map keeps the later one.
unfoldable pub checkpoint : List RunStep → String → Option (Option Json)
checkpoint [] step = none
checkpoint (s ∷ steps) step =
    let later = checkpoint steps step in
    elim later [ none ↦ (if s.step_id === step then some s.output else none) | some v ↦ some v ]

-- `checkpointOrThrow(…) ?? …`: a recorded output is checked and taken, a missing one computed.
unfoldable pub checkpoint_or :
    {W A : Type 0} → (Option Json → Result A) → Option (Option Json) → Async W A → Async W A
checkpoint_or read none compute = compute
checkpoint_or read (some output) compute = lift (read output)

module _ {S Compiled Patched Decided Handle : Type 0}
    (env : Env S Compiled Patched Decided Handle) where
  -- Runs a step, checks the clock and records the step.
  abbrev complete :
      {A : Type 0}
      → String
      → String
      → Option RunBudget
      → ℕ
      → Async (Process S) A
      → Async (Process S) A
  complete run_id step budget t0_ms compute = do
    value ← compute
    assert_wall_clock_budget env budget t0_ms
    update_ops env run_id (last_step_is step)
    pure value

  -- The part of the `try` block after the run is found.
  unfoldable pub repair_found : String → String → Async (Process S) Unit
  unfolding checkpoint checkpoint_or fan_out wait_for_plan_approval assert_wall_clock_budget
      require_none
  repair_found run_id intent_id = do
    loaded ← invoke (Call.load intent_id) (env.steps.load intent_id)
    t0_ms ← invoke Call.get_timestamp env.steps.get_timestamp
    lift (env.contracts.assert_intent loaded.intent)
    rows ← invoke (Call.get_run_steps run_id) (env.steps.get_run_steps run_id)
    compiled ← checkpoint_or env.contracts.compile_output (checkpoint rows "CompileST") (
        complete run_id "CompileST" loaded.budget t0_ms
          (invoke (Call.compile run_id) (env.steps.compile run_id loaded.intent)))
    patched ← checkpoint_or env.contracts.apply_patch_output (checkpoint rows "ApplyPatchST") (
        complete run_id "ApplyPatchST" loaded.budget t0_ms
          (invoke (Call.apply_patch run_id) (env.steps.apply_patch run_id compiled)))
    decision ← checkpoint_or env.contracts.decide_output (checkpoint rows "DecideST") (
        wait_for_plan_approval env intent_id run_id loaded.plan_approval_timeout_s
        >> complete run_id "DecideST" loaded.budget t0_ms
            (invoke (Call.decide run_id) (env.steps.decide run_id patched)))
    executed ←
        checkpoint_or env.contracts.execute_output (checkpoint rows "ExecuteST")
          (fan_out env intent_id run_id loaded.queue_partition_key loaded.budget t0_ms decision)
    require_none env executed
    update_status env run_id succeeded
    emit_status_event env intent_id succeeded

  abbrev emit_if_known : Option String → Error → Async (Process S) Unit
  emit_if_known none e = pure tt
  emit_if_known (some intent_id) e = emit_terminal_status env intent_id e

  unfoldable pub fail_repair : String → Option String → Error → Async (Process S) Unit
  unfolding emit_budget_artifact_if_needed persist_terminal_failure emit_terminal_status
  fail_repair run_id intent_id e = do
    emit_budget_artifact_if_needed env run_id e
    persist_terminal_failure env run_id e
    emit_if_known intent_id e
    throw e

  abbrev repair_result : String → Result RunHead → Async (Process S) Unit
  unfolding repair_found fail_repair
  repair_result run_id (err e) = fail_repair run_id none e
  repair_result run_id (ok run) =
      catch (repair_found run_id run.intent_id) (fail_repair run_id (some run.intent_id))

  unfoldable pub repair_run_workflow : String → Async (Process S) Unit
  unfolding repair_found fail_repair
  repair_run_workflow run_id p =
      let found =
        (update_ops env run_id (record no_ops {
          status = some repairing;
          retry_count_inc = true;
          next_action = some (some "NONE");
        })
            >> invoke (Call.get_run run_id) (env.steps.get_run run_id))
          p in
      repair_result run_id found.0 found.1
