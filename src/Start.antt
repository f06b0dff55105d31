-- ===== src/Start.antt =====
-- Starting a run: src/workflow/start-intent.ts. The queue policy, the table of runs and the options
-- for the queue meet here; the engine is a parameter that changes a state of its own.
pub mod Options
pub mod Launch
pub mod Again
use sisu_kodo.Prelude.{
  ℕ, String, Bool, true, false, not, ◌&&◌, ◌||◌, Option, none, some, List, ◌<>◌, find, ◌===◌,
  includes, if◌then◌else◌,
}
use sisu_kodo.Failure.{Error, plain, message, Result, ok, err}
use sisu_kodo.Failure.Async.{Async, pure, throw, lift, catch, ◌>>=◌, ◌>>◌}
use sisu_kodo.Queue.{
  QueueConfig, ResolvedQueuePolicy, RunRequest, RecipeRef, PinnedRecipe, RecipePolicySource,
  resolve_queue_policy,
}
use sisu_kodo.Runs.{RunRow, queued, failed, update_run_status}
use sisu_kodo.Runs.Insertion.{NewRun, Inserted, insert_run}
use Options.{WorkflowOptions, to_intent_run_workflow_options}

-- The columns of an intent that a run copies.
pub record IntentIdentity : Type 0 where
  pub id : String
  pub intent_hash : Option String
  pub recipe_id : Option String
  pub recipe_v : Option String
  pub recipe_hash : Option String

pub record Ack : Type 0 where
  pub run_id : String
  pub workflow_id : String
  pub is_replay : Bool

pub record World (E : Type 0) : Type 0 where
  pub runs : List RunRow
  pub engine : E

-- The clock at the insertion and at the failing of a run.
pub record Clock : Type 0 where
  pub insertion : ℕ
  pub failure : ℕ

abbrev pub find_intent_by_id : List IntentIdentity → String → Result IntentIdentity
find_intent_by_id intents id = elim (find (λ (i : IntentIdentity). i.id === id) intents) [
  | none ↦ err (plain ("Intent not found: " <> id))
  | some intent ↦ ok intent
]

unfoldable pub is_conflict : Error → Bool
is_conflict e =
    includes (message e) "already exists" || includes (message e) "Duplicate workflow ID"

-- `digest w` is the first 32 digits of the SHA-256 of `{ workflowId: w }`.
unfoldable pub derive_run_id : (String → String) → String → String
derive_run_id digest workflow_id = "run_" <> digest workflow_id

unfoldable pub new_run :
    (String → String) → IntentIdentity → RunRequest → ResolvedQueuePolicy → String → NewRun
unfolding derive_run_id
new_run digest intent req policy intent_id = record {
  id = derive_run_id digest intent_id;
  intent_id = intent_id;
  intent_hash = intent.intent_hash;
  recipe_id = intent.recipe_id;
  recipe_v = intent.recipe_v;
  recipe_hash = intent.recipe_hash;
  workflow_id = intent_id;
  status = queued;
  trace_id = req.trace_id;
  tenant_id = req.tenant_id;
  queue_partition_key = policy.queue_partition_key;
  budget = req.budget;
}

-- `WorkflowService.startIntentRun`
abbrev pub Engine : Type 0 → Type 0
Engine E = String → WorkflowOptions → Async E (Unit {0})

module _ {E : Type 0} where
  unfoldable pub insert_in : ℕ → NewRun → Async (World E) Inserted
  insert_in now run w =
      ((insert_run now w.runs run).0, record w { runs = (insert_run now w.runs run).1 })

  unfoldable pub mark_failed : ℕ → String → Async (World E) (Unit {0})
  mark_failed now id w = (ok tt, record w { runs = update_run_status now w.runs id failed })

  unfoldable pub start_workflow : Engine E → String → WorkflowOptions → Async (World E) (Unit {0})
  start_workflow engine id options w =
      ((engine id options w.engine).0, record w { engine = (engine id options w.engine).1 })

  -- The handler of a start that the engine rejected.
  unfoldable pub on_rejected : ℕ → Inserted → Ack → Error → Async (World E) Ack
  unfolding is_conflict
  on_rejected now row ack e = do
    if row.inserted && not (is_conflict e) then mark_failed now row.run.id else pure tt
    if is_conflict e || not row.inserted then pure (record ack { is_replay = true }) else throw e

  -- From the row on.
  unfoldable pub launch : Engine E → ℕ → Inserted → String → WorkflowOptions → Async (World E) Ack
  unfolding on_rejected start_workflow
  launch engine now row workflow_id options =
      let ack : Ack = record {
        run_id = row.run.id;
        workflow_id = workflow_id;
        is_replay = not row.inserted;
      } in
      catch (start_workflow engine workflow_id options >> pure ack) (on_rejected now row ack)

  module _ (config : QueueConfig) (find_version : RecipeRef → Option PinnedRecipe)
      (find_recipe_by_name : String → Option ℕ → Option RecipePolicySource)
      (digest : String → String) (engine : Engine E) where
    unfoldable pub start_intent_run :
        Clock → List IntentIdentity → String → RunRequest → Option RecipeRef → Async (World E) Ack
    start_intent_run clock intents intent_id req recipe_ref = do
      policy ←
          lift (resolve_queue_policy config find_version find_recipe_by_name req true recipe_ref)
      intent ← lift (find_intent_by_id intents intent_id)
      row ← insert_in clock.insertion (new_run digest intent req policy intent_id)
      launch engine clock.failure row intent_id (to_intent_run_workflow_options config policy)
