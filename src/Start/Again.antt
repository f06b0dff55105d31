-- ===== src/Start/Again.antt =====
-- Starting a run again, and a start that fails: src/workflow/start-intent.ts.
use sisu_kodo.Prelude.{ℕ, String, true, false, Option, some, List, ◌≡◌, refl, sym, ap, ◌∙◌, eq_iff}
use sisu_kodo.Failure.{Error, ok, err}
use sisu_kodo.Failure.Async.{Async, lift, ◌>>=◌, bind_returns}
use sisu_kodo.Queue.{
  QueueConfig, ResolvedQueuePolicy, RunRequest, RecipeRef, PinnedRecipe, RecipePolicySource,
  resolve_queue_policy,
}
use sisu_kodo.Runs.{RunRow, failed, update_run_status, find_run_by_id, set_status, status_case}
use sisu_kodo.Runs.Terminal.{find-apply, RunUpdate}
use sisu_kodo.Runs.Insertion.{NewRun, Inserted, new_row, insert_run}
use sisu_kodo.Runs.Insertion.Again.{insert_run_idempotent}
use sisu_kodo.Runs.Insertion.Fresh.{insert_run_new}
use sisu_kodo.Start.{
  Engine, IntentIdentity, Ack, World, Clock, find_intent_by_id, is_conflict, new_run, insert_in,
  launch, start_intent_run,
}
use sisu_kodo.Start.Options.{WorkflowOptions, to_intent_run_workflow_options}
use sisu_kodo.Start.Launch.{ack_of, launch_replay, launch_returns, launch_err, reject_new}

module _ {E : Type 0} (config : QueueConfig) (find_version : RecipeRef → Option PinnedRecipe)
    (find_recipe_by_name : String → Option ℕ → Option RecipePolicySource) (digest : String → String)
    (intents : List IntentIdentity) (intent_id : String) (req : RunRequest)
    (recipe_ref : Option RecipeRef) where
  abbrev start : Engine E → Clock → Async (World E) Ack
  start engine clock =
      start_intent_run config find_version find_recipe_by_name digest engine clock intents intent_id
        req recipe_ref

  -- A start whose policy and intent are found, and whose row is inserted or replayed, goes on to launch.
  start_of_inserted :
      (engine : Engine E) (clock : Clock) (w : World E) {policy : ResolvedQueuePolicy}
      {intent : IntentIdentity} {row : Inserted}
      → resolve_queue_policy config find_version find_recipe_by_name req true recipe_ref ≡ ok policy
      → find_intent_by_id intents intent_id ≡ ok intent
      → (insert_run clock.insertion w.runs (new_run digest intent req policy intent_id)).0 ≡ ok row
      → start engine clock w
        ≡ launch engine clock.failure row intent_id
            (to_intent_run_workflow_options config policy)
            (record w {
              runs =
                  (insert_run clock.insertion w.runs
                    (new_run digest intent req policy intent_id)).1;
            })
  unfolding start_intent_run ◌>>=◌ lift insert_in
  start_of_inserted engine clock w p i r = rw (p, i, r) refl

  record Launched (engine : Engine E) (clock : Clock) (w : World E) : Type 0 where
    policy : ResolvedQueuePolicy
    intent : IntentIdentity
    row : Inserted
    resolved :
        resolve_queue_policy config find_version find_recipe_by_name req true recipe_ref ≡ ok policy
    found : find_intent_by_id intents intent_id ≡ ok intent
    inserted :
        (insert_run clock.insertion w.runs (new_run digest intent req policy intent_id)).0 ≡ ok row

  start_returns :
      (engine : Engine E) (clock : Clock) (w : World E) {ack : Ack}
      → (start engine clock w).0 ≡ ok ack
      → Launched engine clock w
  unfolding start_intent_run lift insert_in
  start_returns engine clock w h =
      let (policy, resolved, h1) = bind_returns _ _ w h in
      let (intent, found, h2) = bind_returns _ _ _ h1 in
      let (row, inserted, h3) = bind_returns _ _ _ h2 in
      record {
        policy = policy;
        intent = intent;
        row = row;
        resolved = resolved;
        found = found;
        inserted = inserted;
      }

  -- After a start that returned, the same request again returns the same run as a replay and
  -- changes no row, whatever the clock and the engine say, even when the engine rejects it.
  pub start_intent_run-replay :
      (engine engine' : Engine E) (clock later : Clock) (w : World E) (state : E) {ack : Ack}
      → (start engine clock w).0 ≡ ok ack
      → let rows = (start engine clock w).1.runs in
        let again = start engine' later (record { runs = rows; engine = state }) in
        (again.0 ≡ ok (record ack { is_replay = true })) × (again.1.runs ≡ rows)
  start_intent_run-replay engine engine' clock later w state {ack} h =
      rw (ap (λ x. x.1.runs) went ∙ left.2) (
        ap (λ x. x.0) again ∙ rw (left.0, left.1) refl,
        ap (λ x. x.1.runs) again ∙ ap (λ x. x.1) replayed,
      )
    where
      l : Launched engine clock w
      l = start_returns engine clock w h

      run : NewRun
      run = new_run digest l.intent req l.policy intent_id

      rows : List RunRow
      rows = (insert_run clock.insertion w.runs run).1

      options : WorkflowOptions
      options = to_intent_run_workflow_options config l.policy

      went :
          start engine clock w
          ≡ launch engine clock.failure l.row intent_id options (record w { runs = rows })
      went = start_of_inserted engine clock w l.resolved l.found l.inserted

      left :
          (ack.run_id ≡ l.row.run.id)
          × (ack.workflow_id ≡ intent_id)
          × ((launch engine clock.failure l.row intent_id options (record w { runs = rows })).1.runs
              ≡ rows)
      left =
          launch_returns engine clock.failure l.row intent_id options (record w { runs = rows })
            (sym (ap (λ x. x.0) went) ∙ h)

      known : Inserted
      known = record { run = l.row.run; inserted = false }

      replayed : insert_run later.insertion rows run ≡ (ok known, rows)
      replayed = insert_run_idempotent clock.insertion later.insertion w.runs run l.inserted

      inserted_rows : World E
      inserted_rows = record { runs = (insert_run later.insertion rows run).1; engine = state }

      again : start engine' later (record { runs = rows; engine = state }) ≡ (
        ok (ack_of known intent_id true),
        record inserted_rows { engine = (engine' intent_id options state).1 },
      )
      again =
          start_of_inserted engine' later (record { runs = rows; engine = state }) l.resolved
            l.found (ap (λ x. x.0) replayed)
          ∙ launch_replay engine' later.failure known intent_id options inserted_rows refl

  -- A first start that the engine rejects, other than for a conflict, throws what the engine threw and
  -- leaves the run, found by its id, failed.
  pub start_intent_run-rejected :
      (engine : Engine E) (clock : Clock) (w : World E) {policy : ResolvedQueuePolicy}
      {intent : IntentIdentity} {row : Inserted} (e : Error)
      → resolve_queue_policy config find_version find_recipe_by_name req true recipe_ref ≡ ok policy
      → find_intent_by_id intents intent_id ≡ ok intent
      → let run = new_run digest intent req policy intent_id in
        (insert_run clock.insertion w.runs run).0 ≡ ok row
        → row.inserted ≡ true
        → (engine intent_id (to_intent_run_workflow_options config policy) w.engine).0 ≡ err e
        → is_conflict e ≡ false
        → ((start engine clock w).0 ≡ err e)
          × (find_run_by_id (start engine clock w).1.runs run.id
              ≡ some (record (new_row clock.insertion run) {
                status = failed;
                updated_at = clock.failure;
              }))
  unfolding set_status status_case new_run
  start_intent_run-rejected engine clock w {policy} {intent} {row} e p i r fresh fails other =
      (ap (λ x. x.0) went, ap (λ x. find_run_by_id x.1.runs run.id) went ∙ failed_row)
    where
      run : NewRun
      run = new_run digest intent req policy intent_id

      rows : List RunRow
      rows = (insert_run clock.insertion w.runs run).1

      went : start engine clock w ≡ (
        err e,
        record {
          runs = update_run_status clock.failure rows row.run.id failed;
          engine = (engine intent_id (to_intent_run_workflow_options config policy) w.engine).1;
        },
      )
      went =
          start_of_inserted engine clock w p i r
          ∙ launch_err engine clock.failure row intent_id _ _ e fails
          ∙ reject_new clock.failure row intent_id _ _ e fresh other

      stored :
          (row.run ≡ new_row clock.insertion run)
          × (find_run_by_id rows run.id ≡ some (new_row clock.insertion run))
      stored = insert_run_new clock.insertion w.runs run r fresh

      failed_row :
          find_run_by_id (update_run_status clock.failure rows row.run.id failed) run.id
          ≡ some
              (record (new_row clock.insertion run) { status = failed; updated_at = clock.failure })
      failed_row = rw (stored.0) (
          find-apply run.id run.id rows (RunUpdate.status clock.failure failed)
          ∙ rw ((eq_iff run.id run.id).1 refl, stored.1) refl)
