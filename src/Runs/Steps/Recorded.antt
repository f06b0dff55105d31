-- ===== src/Runs/Steps/Recorded.antt =====
-- How a tracked step whose action succeeds ends: src/workflow/steps/run-intent.steps.ts.
use sisu_kodo.Prelude.{
  ℕ, suc, ◌<◌, String, Option, ◌or_default◌, ◌&&◌, none, some, List, [], ◌∷◌, ◌===◌, ◌≡◌, refl,
  arith, Bool-cases, inl, inr,
}
use sisu_kodo.Prelude.Json.{Fields}
use mathlib.Core.Option
use sisu_kodo.Failure.{Result, ok, err}
use sisu_kodo.Failure.Async.{Async}
use sisu_kodo.Runs.Steps.{
  StepOutput, StepRecord, RunStepRow, Tracked, find_step, max_attempt, insert_unless, violation,
  mark_no_artifact, record_step, run_tracked_step, with_step_attempt,
}

-- No row of a step has an attempt above the greatest one.
find-above :
    (rows : List RunStepRow) (run_id step_id : String) (n : ℕ)
    → max_attempt rows run_id step_id < n
    → find_step rows run_id step_id n ≡ none
unfolding find_step
find-above [] run_id step_id n h = refl
find-above (r ∷ rows) run_id step_id n h =
    elim (Bool-cases (r.run_id === run_id && r.step.step_id === step_id)) [
      | inl same ↦ ground (arith, h, same, find-above rows run_id step_id n)
      | inr other ↦ ground (arith, h, other, find-above rows run_id step_id n)
    ]

abbrev pub step_of : String → String → ℕ → ℕ → ℕ → Fields → StepRecord
step_of step_id phase start finish attempt result = record {
  step_id = step_id;
  phase = phase;
  output = some (with_step_attempt result attempt);
  started_at = start;
  finished_at = finish;
}

abbrev pub row_of : String → ℕ → StepRecord → RunStepRow
row_of run_id attempt step = record { run_id = run_id; attempt = attempt; step = step }

module _ (canonical : StepOutput → String) {S : Type 0} (none_digest run_id step_id : String) where
  module _ (check : String → Fields → Result (Unit {0})) (start middle finish : ℕ) (phase : String)
      (action : Async (Tracked S) Fields) (given : Option ℕ) (w : Tracked S) (result : Fields) where
    abbrev pub attempt : ℕ
    attempt = given or_default suc (max_attempt w.run_steps run_id step_id)

    abbrev pub step : StepRecord
    step = step_of step_id phase start finish attempt result

    -- The steps on record once the action is done.
    abbrev pub before : List RunStepRow
    before = (action w).1.run_steps

    abbrev marking : Result (Unit {0}) × Tracked S
    marking = mark_no_artifact canonical none_digest middle run_id step_id attempt (action w).1

    abbrev recording : Result (Unit {0}) × Tracked S
    recording = record_step canonical none_digest run_id step marking.1

    abbrev pub tracked : Result (Fields × ℕ) × Tracked S
    tracked =
        run_tracked_step canonical none_digest check (start, middle, finish) run_id step_id phase
          given action w

    -- How a tracked step ends, with what it leaves on record. The phase and the canonical text of the
    -- output tell whether a recorded step is the same one.
    pub data Settled : Result (Fields × ℕ) → List RunStepRow → Type 0 where
      first_time :
          find_step before run_id step_id attempt ≡ none
          → Settled (ok (result, attempt)) (row_of run_id attempt step ∷ before)
      repeated :
          (existing : RunStepRow)
          → find_step before run_id step_id attempt ≡ some existing
          → existing.step.phase ≡ phase
          → Option.map canonical existing.step.output
            ≡ some (canonical (with_step_attempt result attempt))
          → Settled (ok (result, attempt)) before
      differs :
          (existing : RunStepRow)
          → find_step before run_id step_id attempt ≡ some existing
          → ¬ (
              (existing.step.phase ≡ phase)
              × (Option.map canonical existing.step.output
                  ≡ some (canonical (with_step_attempt result attempt))))
          → Settled (err (violation run_id step)) before

    abbrev answer : Result (Unit {0}) → Result (Fields × ℕ)
    answer (ok _) = ok (result, attempt)
    answer (err e) = err e

    -- The row is looked for among the steps that the action left.
    abbrev inserted : Option RunStepRow → Result (Unit {0}) × List RunStepRow
    inserted found = insert_unless canonical found before run_id step

    -- A counted attempt is not on record, when the action leaves the steps alone.
    counted_unused :
        given ≡ none → before ≡ w.run_steps → find_step before run_id step_id attempt ≡ none
    counted_unused counted same =
        rw (counted, same) (find-above w.run_steps run_id step_id _ (omega arith))
