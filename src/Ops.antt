-- ===== src/Ops.antt =====
-- Operator actions on workflows: src/server/ops-api.ts. The workflow service is a parameter that
-- changes a state of its own; runs and artifacts are the tables of Runs and Artifacts.
pub mod Intents
pub mod Refused
use sisu_kodo.Prelude.{
  ℕ, zero, suc, ◌+◌, min, max, ltb, leb, String, Bool, true, false, not, ◌&&◌, ◌||◌, Option, none,
  some, List, [], ◌∷◌, ◌++◌, ◌===◌, find, any, is_some, includes, to_lower, codes, contains, ◌<>◌,
  decimal, if◌then◌else◌, ◌or_default◌,
}
use sisu_kodo.Prelude.Json.{Json, str, obj, Fields, end, field}
use sisu_kodo.Failure.{Error, named, plain, message, Result, ok, err}
use sisu_kodo.Failure.Async.{Async, pure, throw, lift, catch, ◌>>=◌, ◌>>◌}
use sisu_kodo.Runs.{RunRow, running}
use sisu_kodo.Runs.Insertion.{new_row}
use Intents.{OpIntentTag, newest_run, op_intent_payload, op_intent_task_key, pad}
use sisu_kodo.Artifacts.Insertion.{ArtifactRow, ArtifactKey, insert_artifact}

pub data WorkflowOpsStatus : Type 0 where
  pending success error max_recovery_attempts_exceeded cancelled enqueued : WorkflowOpsStatus

pub record WorkflowOpsSummary : Type 0 where
  pub workflow_id : String
  pub status : WorkflowOpsStatus
  pub workflow_name : String
  pub created_at : ℕ

pub record ForkRequest : Type 0 where
  pub step_n : ℕ
  pub app_version : Option String

-- `WorkflowService`, as far as operators reach it. A step is its function id.
pub record Service (S : Type 0) : Type 0 where
  pub get_workflow : String → Async S (Option WorkflowOpsSummary)
  pub list_workflow_steps : String → Async S (List ℕ)
  pub cancel_workflow : String → Async S (Unit {0})
  pub resume_workflow : String → Async S (Unit {0})
  pub fork_workflow : String → ForkRequest → Async S String

-- The process and the database; `disambiguator` counts the operator intents of the process.
pub record Office (S : Type 0) : Type 0 where
  pub service : S
  pub runs : List RunRow
  pub intents : List String
  pub artifacts : List ArtifactRow
  pub disambiguator : ℕ

abbrev pub status_name : WorkflowOpsStatus → String
status_name pending = "PENDING"
status_name success = "SUCCESS"
status_name error = "ERROR"
status_name max_recovery_attempts_exceeded = "MAX_RECOVERY_ATTEMPTS_EXCEEDED"
status_name cancelled = "CANCELLED"
status_name enqueued = "ENQUEUED"

abbrev pub is_cancellable : WorkflowOpsStatus → Bool
is_cancellable pending = true
is_cancellable enqueued = true
is_cancellable _ = false

abbrev pub is_resumable : WorkflowOpsStatus → Bool
is_resumable cancelled = true
is_resumable enqueued = true
is_resumable _ = false

abbrev pub not_found : String → Error
not_found id = named "OpsNotFoundError" ("workflow not found: " <> id)

abbrev pub conflict : String → Error
conflict m = named "OpsConflictError" m

abbrev pub error_name : Error → String
error_name (named name m) = name
error_name _ = "Error"

-- The message is read in lower case.
unfoldable pub is_fork_step_conflict : Error → Bool
is_fork_step_conflict e =
    error_name e === "DBOSInvalidStepIDError"
    || contains (to_lower (codes (message e))) (codes "step")

abbrev pub default_list_limit : ℕ
default_list_limit = 20

abbrev pub max_list_limit : ℕ
max_list_limit = 200

unfoldable pub normalize_list_limit : Option ℕ → ℕ
normalize_list_limit none = default_list_limit
normalize_list_limit (some limit) = max 1 (min max_list_limit limit)

-- Math.max(0, ...steps)
abbrev pub max_step : List ℕ → ℕ
max_step [] = 0
max_step (n ∷ ns) = max n (max_step ns)

module _ {S : Type 0} where
  -- A call of the service.
  unfoldable pub serve : {A : Type 0} → Async S A → Async (Office S) A
  serve call o = ((call o.service).0, record o { service = (call o.service).1 })

  unfoldable pub get_workflow_or_throw : Service S → String → Async (Office S) WorkflowOpsSummary
  unfolding serve
  get_workflow_or_throw service id = do
    found ← serve (service.get_workflow id)
    elim found [ none ↦ throw (not_found id) | some workflow ↦ pure workflow ]

  -- A run for the workflow, made up when none is on record.
  unfoldable pub resolve_run_id_for_op_intent : ℕ → String → Office S → String × Office S
  unfolding newest_run
  resolve_run_id_for_op_intent now id o = elim (newest_run o.runs id) [
    | some run ↦ (run.id, o)
    | none ↦ (
      id,
      record o {
        intents =
            if any (λ i. i === "it-ops-" <> id) o.intents
            then o.intents
            else ("it-ops-" <> id) ∷ o.intents;
        runs =
            new_row now (record {
              id = id;
              intent_id = "it-ops-" <> id;
              intent_hash = none;
              recipe_id = none;
              recipe_v = none;
              recipe_hash = none;
              workflow_id = id;
              status = running;
              trace_id = none;
              tenant_id = none;
              queue_partition_key = none;
              budget = none;
            })
            ∷ o.runs;
      },
    )
  ]

  -- `digest` is the SHA-256 of a value, `tag_digest` the one of a tag without its time.
  module _ (digest : Json → String) (tag_digest : OpIntentTag → String) (pid : ℕ) where
    unfoldable pub persist_op_intent : ℕ → OpIntentTag → Async (Office S) (Unit {0})
    unfolding resolve_run_id_for_op_intent op_intent_task_key op_intent_payload
    persist_op_intent now tag o =
        let resolved : String × Office S =
          resolve_run_id_for_op_intent now tag.target_workflow_id o in
        let n : ℕ = suc o.disambiguator in
        let task_key : String = op_intent_task_key tag_digest pid tag n in
        let stored : Result ArtifactRow × List ArtifactRow =
          insert_artifact now resolved.1.artifacts
            (record {
              run_id = resolved.0;
              step_id = "OPS";
              task_key = task_key;
              idx = 0;
              attempt = 1;
            })
            (record {
              kind = "json_diagnostic";
              uri = some (
                  "artifact://run/"
                  <> (resolved.0
                      <> ("/step/OPS/task/"
                          <> (task_key <> ("/op-intent-" <> (tag.op <> ".json"))))));
              inline = some (op_intent_payload tag);
              sha256 = digest (op_intent_payload tag);
            }) in
        (lift stored.0 >>= λ _. pure tt)
          (record resolved.1 { artifacts = stored.1; disambiguator = n })

    module _ (service : Service S) where
      -- `persist` says whether a pool was given.
      unfoldable pub noted : Bool → ℕ → OpIntentTag → Async (Office S) (Unit {0})
      noted persist now tag = if persist then persist_op_intent now tag else pure tt

      unfoldable pub cancel_workflow : Bool → ℕ → OpIntentTag → Async (Office S) String
      unfolding noted serve
      cancel_workflow persist now tag = do
        workflow ← get_workflow_or_throw service tag.target_workflow_id
        if is_cancellable workflow.status
            then (do
              serve (service.cancel_workflow tag.target_workflow_id)
              noted persist now (record tag { op = "cancel" })
              pure tag.target_workflow_id)
            else throw
                (conflict ("cannot cancel workflow in status " <> status_name workflow.status))

      unfoldable pub resume_workflow : Bool → ℕ → OpIntentTag → Async (Office S) String
      unfolding noted serve
      resume_workflow persist now tag = do
        workflow ← get_workflow_or_throw service tag.target_workflow_id
        if is_resumable workflow.status
            then (do
              serve (service.resume_workflow tag.target_workflow_id)
              noted persist now (record tag { op = "resume" })
              pure tag.target_workflow_id)
            else throw
                (conflict ("cannot resume workflow in status " <> status_name workflow.status))

      unfoldable pub fork_workflow :
          Bool → ℕ → ForkRequest → OpIntentTag → Async (Office S) (String × String)
      unfolding noted serve
      fork_workflow persist now request tag = do
        workflow ← get_workflow_or_throw service tag.target_workflow_id
        steps ← serve (service.list_workflow_steps tag.target_workflow_id)
        if ltb (max_step steps) request.step_n
            then throw (
                conflict (
                  "fork stepN "
                  <> (decimal request.step_n
                      <> (" exceeds max step " <> decimal (max_step steps)))))
            else catch
                (do
                  forked ← serve (service.fork_workflow tag.target_workflow_id request)
                  noted persist now (record tag { op = "fork"; forked_workflow_id = some forked })
                  pure (tag.target_workflow_id, forked))
                (λ e. if is_fork_step_conflict e then throw (conflict (message e)) else throw e)
