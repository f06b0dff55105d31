-- ===== src/Runs/Insertion.antt =====
-- Starting a run at most once: insertRun and the drift check of src/db/runRepo.ts.
pub mod Drift
pub mod Again
pub mod Fresh
use sisu_kodo.Prelude.{
  ℕ, String, Option, none, some, Bool, true, false, ◌&&◌, List, [], ◌∷◌, ◌++◌, ◌≡◌, ◌↔◌, refl,
  arith, any, join, ◌<>◌, ◌===◌, ◌==◌, opt_eq, opt_eq_iff, eq_iff, if◌then◌else◌, ◌∙◌,
}
use sisu_kodo.Failure.{Error, identity_conflict, plain, Result, ok, err}
use sisu_kodo.Budget.{RunBudget}
use sisu_kodo.Runs.{RunStatus, RunRow, find_run_by_workflow_id}

-- What a caller of `insertRun` gives.
pub record NewRun : Type 0 where
  pub id : String
  pub intent_id : String
  pub intent_hash : Option String
  pub recipe_id : Option String
  pub recipe_v : Option String
  pub recipe_hash : Option String
  pub workflow_id : String
  pub status : RunStatus
  pub trace_id : Option String
  pub tenant_id : Option String
  pub queue_partition_key : Option String
  pub budget : Option RunBudget

-- The canonical JSON of two budgets agrees when their five numbers do.
abbrev pub budget_eq : Option RunBudget → Option RunBudget → Bool
budget_eq none none = true
budget_eq none (some _) = false
budget_eq (some _) none = false
budget_eq (some a) (some b) =
    a.max_fanout == b.max_fanout
    && a.max_sbx_minutes == b.max_sbx_minutes
    && a.max_artifacts_mb == b.max_artifacts_mb
    && a.max_retries_per_step == b.max_retries_per_step
    && a.max_wall_clock_ms == b.max_wall_clock_ms

-- `if (differs) drift.push(field)`
abbrev pub push_unless : Bool → String → List String → List String
push_unless agrees field rest = if agrees then rest else field ∷ rest

-- The fields in which an existing run and a new request for its workflow differ.
unfoldable pub run_identity_drift_fields : RunRow → NewRun → List String
run_identity_drift_fields existing incoming = push_unless (existing.id === incoming.id) "id" (
    push_unless (existing.intent_id === incoming.intent_id) "intent_id" (
      push_unless (opt_eq existing.intent_hash incoming.intent_hash) "intent_hash" (
        push_unless (opt_eq existing.recipe_id incoming.recipe_id) "recipe_id" (
          push_unless (opt_eq existing.recipe_v incoming.recipe_v) "recipe_v" (
            push_unless (opt_eq existing.recipe_hash incoming.recipe_hash) "recipe_hash" (
              push_unless (opt_eq existing.trace_id incoming.trace_id) "trace_id" (
                push_unless (opt_eq existing.tenant_id incoming.tenant_id) "tenant_id" (
                  push_unless (opt_eq existing.queue_partition_key incoming.queue_partition_key)
                    "queue_partition_key"
                    (push_unless (budget_eq existing.budget incoming.budget) "budget" [])))))))))

abbrev pub new_row : ℕ → NewRun → RunRow
new_row now run = record {
  id = run.id;
  intent_id = run.intent_id;
  intent_hash = run.intent_hash;
  recipe_id = run.recipe_id;
  recipe_v = run.recipe_v;
  recipe_hash = run.recipe_hash;
  workflow_id = run.workflow_id;
  status = run.status;
  trace_id = run.trace_id;
  tenant_id = run.tenant_id;
  queue_partition_key = run.queue_partition_key;
  budget = run.budget;
  last_step = none;
  error = none;
  retry_count = 0;
  next_action = none;
  created_at = now;
  updated_at = now;
}

pub record Inserted : Type 0 where
  pub run : RunRow
  pub inserted : Bool

abbrev pub drift_error : String → List String → Error
drift_error workflow_id fields =
    identity_conflict
      ("Divergence in run " <> workflow_id <> ": identity drift on " <> join ", " fields) fields

-- The existing row is the answer if nothing drifted.
answer : List String → RunRow → NewRun → Result Inserted
answer [] existing run = ok (record { run = existing; inserted = false })
answer (field ∷ fields) existing run = err (drift_error run.workflow_id (field ∷ fields))

-- `ON CONFLICT (workflow_id) DO NOTHING`; a clash of the primary key alone is the database's error.
insert_fresh : Bool → ℕ → List RunRow → NewRun → Result Inserted × List RunRow
insert_fresh true now rows run =
    (err (plain "duplicate key value violates unique constraint \"runs_pkey\""), rows)
insert_fresh false now rows run =
    (ok (record { run = new_row now run; inserted = true }), rows ++ new_row now run ∷ [])

insert_unless : Option RunRow → ℕ → List RunRow → NewRun → Result Inserted × List RunRow
unfolding answer insert_fresh
insert_unless (some existing) now rows run =
    (answer (run_identity_drift_fields existing run) existing run, rows)
insert_unless none now rows run =
    insert_fresh (any (λ (r : RunRow). r.id === run.id) rows) now rows run

unfoldable pub insert_run : ℕ → List RunRow → NewRun → Result Inserted × List RunRow
unfolding insert_unless
insert_run now rows run = insert_unless (find_run_by_workflow_id rows run.workflow_id) now rows run
