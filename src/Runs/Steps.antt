-- ===== src/Runs/Steps.antt =====
-- The recorded steps of a run: insertRunStep of src/db/runRepo.ts, src/workflow/steps/step-counter.ts
-- and runTrackedStep of src/workflow/steps/run-intent.steps.ts.
-- The attempt of an output is kept apart from its other members.
pub mod Recorded
use sisu_kodo.Prelude.{
  ℕ, suc, max, String, Bool, true, false, not, ◌&&◌, ◌||◌, Option, none, some, List, [], ◌∷◌, ◌===◌,
  ◌==◌, opt_eq, find, any, ◌<>◌, decimal, if◌then◌else◌, ◌or_default◌,
}
use mathlib.Core.Option
use sisu_kodo.Prelude.Json.{Json, str, obj, Fields, end, field}
use sisu_kodo.Failure.{Error, plain, Result, ok, err}
use sisu_kodo.Failure.Async.{Async, pure, throw, lift, ◌>>=◌, ◌>>◌}
use sisu_kodo.Artifacts.Insertion.{ArtifactRow, ArtifactKey, insert_artifact}

pub record StepOutput : Type 0 where
  pub members : Fields
  pub attempt : Option ℕ

pub record StepRecord : Type 0 where
  pub step_id : String
  pub phase : String
  pub output : Option StepOutput
  pub started_at : ℕ
  pub finished_at : ℕ

pub record RunStepRow : Type 0 where
  pub run_id : String
  pub attempt : ℕ
  pub step : StepRecord

-- The process, as a tracked step sees it.
pub record Tracked (S : Type 0) : Type 0 where
  pub run_steps : List RunStepRow
  pub artifacts : List ArtifactRow
  pub outside : S

abbrev pub is_step : String → String → ℕ → RunStepRow → Bool
is_step run_id step_id attempt r =
    r.run_id === run_id && r.step.step_id === step_id && r.attempt == attempt

unfoldable pub find_step : List RunStepRow → String → String → ℕ → Option RunStepRow
find_step rows run_id step_id attempt = find (is_step run_id step_id attempt) rows

-- MAX(attempt) of the rows of a step, 0 when there are none.
abbrev pub max_attempt : List RunStepRow → String → String → ℕ
max_attempt [] run_id step_id = 0
max_attempt (r ∷ rows) run_id step_id =
    let rest = max_attempt rows run_id step_id in
    if r.run_id === run_id && r.step.step_id === step_id then max r.attempt rest else rest

unfoldable pub next_step_attempt : List RunStepRow → String → String → ℕ
next_step_attempt rows run_id step_id = suc (max_attempt rows run_id step_id)

abbrev pub with_step_attempt : Fields → ℕ → StepOutput
with_step_attempt members attempt = record { members = members; attempt = some attempt }

-- `isRecord(output) && typeof output.attempt === "number" ? output.attempt : 1`
abbrev pub attempt_of : Option StepOutput → ℕ
attempt_of none = 1
attempt_of (some output) = output.attempt or_default 1

abbrev pub violation : String → StepRecord → Error
violation run_id step = plain (
    "Determinism violation in "
    <> (run_id
        <> (":"
            <> (step.step_id
                <> (":" <> (decimal (attempt_of step.output) <> ". Phase or output mismatch."))))))

abbrev pub none_key : String → String → ℕ → ArtifactKey
none_key run_id step_id attempt = record {
  run_id = run_id;
  step_id = step_id;
  task_key = "";
  idx = 999;
  attempt = attempt;
}

abbrev pub has_artifact : List ArtifactRow → String → String → ℕ → Bool
has_artifact rows run_id step_id attempt =
    any
      (λ (r : ArtifactRow).
        r.key.run_id === run_id && r.key.step_id === step_id && r.key.attempt == attempt)
      rows

-- `canonical` is the text of an output with its keys in order.
module _ (canonical : StepOutput → String) where
  abbrev pub drifted : StepRecord → StepRecord → Bool
  drifted existing step =
      not (existing.phase === step.phase)
      || not (opt_eq (Option.map canonical existing.output) (Option.map canonical step.output))

  abbrev pub insert_unless :
      Option RunStepRow
      → List RunStepRow
      → String
      → StepRecord
      → Result (Unit {0}) × List RunStepRow
  insert_unless none rows run_id step =
      (ok tt, record { run_id = run_id; attempt = attempt_of step.output; step = step } ∷ rows)
  insert_unless (some existing) rows run_id step =
      if drifted existing.step step then (err (violation run_id step), rows) else (ok tt, rows)

  unfoldable pub insert_run_step :
      List RunStepRow → String → StepRecord → Result (Unit {0}) × List RunStepRow
  unfolding find_step
  insert_run_step rows run_id step =
      insert_unless (find_step rows run_id step.step_id (attempt_of step.output)) rows run_id step

  -- `none_digest` is the SHA-256 of the text "none".
  module _ {S : Type 0} (none_digest : String) where
    -- A step without artifacts gets one that says so.
    unfoldable pub mark_no_artifact : ℕ → String → String → ℕ → Async (Tracked S) (Unit {0})
    mark_no_artifact now run_id step_id attempt w =
        let stored : Result ArtifactRow × List ArtifactRow =
          insert_artifact now w.artifacts (none_key run_id step_id attempt) (record {
            kind = "none";
            uri = some ("artifact://run/" <> (run_id <> ("/step/" <> (step_id <> "/task//none"))));
            inline = some (obj (field "status" (str "no_artifacts") end));
            sha256 = none_digest;
          }) in
        if has_artifact w.artifacts run_id step_id attempt
        then (ok tt, w)
        else (lift stored.0 >>= λ _. pure tt) (record w { artifacts = stored.1 })

    unfoldable pub record_step : String → StepRecord → Async (Tracked S) (Unit {0})
    record_step run_id step w =
        let stored : Result (Unit {0}) × List RunStepRow =
          insert_run_step w.run_steps run_id step in
        (stored.0, record w { run_steps = stored.1 })

    -- `assert_step_output` is the compiled schema's check; the clock is read at the start, at the
    -- artifact and at the end.
    unfoldable pub run_tracked_step :
        (String → Fields → Result (Unit {0}))
        → ℕ × ℕ × ℕ
        → String
        → String
        → String
        → Option ℕ
        → Async (Tracked S) Fields
        → Async (Tracked S) (Fields × ℕ)
    unfolding next_step_attempt mark_no_artifact record_step
    run_tracked_step assert_step_output (start, middle, finish) run_id step_id phase given action
          w =
        let attempt : ℕ = given or_default next_step_attempt w.run_steps run_id step_id in
        (do
          result ← action
          lift (assert_step_output step_id result)
          mark_no_artifact middle run_id step_id attempt
          record_step run_id (record {
            step_id = step_id;
            phase = phase;
            output = some (with_step_attempt result attempt);
            started_at = start;
            finished_at = finish;
          })
          pure (result, attempt))
          w
