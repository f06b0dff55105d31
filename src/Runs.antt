-- ===== src/Runs.antt =====
-- Rows of app.runs and their updates: src/db/runRepo.ts and src/contracts/run-view.schema.ts.
-- A table is the list of its rows; `now` is the database's clock at the statement. A column that may
-- be null is an option, and an update that leaves a column alone gives none for it.
pub mod Terminal
pub mod Insertion
pub mod Steps
use sisu_kodo.Prelude.{
  ℕ, String, Option, none, some, Bool, true, false, not, ◌&&◌, List, [], find, update_where, ◌===◌,
  ◌||◌, is_some, if◌then◌else◌, ◌or_default◌,
}
use sisu_kodo.Budget.{RunBudget}

pub data RunStatus : Type 0 where
  queued running waiting_input succeeded failed canceled retries_exceeded repairing : RunStatus

pub record RunRow : Type 0 where
  pub id : String
  pub intent_id : String
  pub intent_hash : Option String
  pub recipe_id : Option String
  pub recipe_v : Option String
  pub recipe_hash : Option String
  pub workflow_id : String
  pub status : RunStatus
  pub trace_id : Option String
  pub tenant_id : Option String
  pub queue_partition_key : Option String
  pub budget : Option RunBudget
  pub last_step : Option String
  pub error : Option String
  pub retry_count : ℕ
  pub next_action : Option String
  pub created_at : ℕ
  pub updated_at : ℕ

-- status IN ('succeeded', 'failed', 'canceled', 'retries_exceeded')
abbrev pub is_terminal : RunStatus → Bool
is_terminal succeeded = true
is_terminal failed = true
is_terminal canceled = true
is_terminal retries_exceeded = true
is_terminal _ = false

abbrev pub is_repairing : RunStatus → Bool
is_repairing repairing = true
is_repairing _ = false

-- The CASE of `updateRunStatus`, on one row.
unfoldable pub status_case : RunStatus → RunStatus → RunStatus
status_case current next = if is_terminal current && not (is_terminal next) then current else next

unfoldable pub set_status : ℕ → RunStatus → RunRow → RunRow
unfolding status_case
set_status now next row = record row { status = status_case row.status next; updated_at = now }

unfoldable pub update_run_status : ℕ → List RunRow → String → RunStatus → List RunRow
update_run_status now rows id status =
    update_where (λ (r : RunRow). r.id === id) (set_status now status) rows

pub record RunOps : Type 0 where
  pub status : Option RunStatus
  pub last_step : Option String
  pub error : Option (Option String)
  pub retry_count : Option ℕ
  pub next_action : Option (Option String)

-- The CASE of `updateRunOps`: a terminal run is reentered only for a counted repair.
unfoldable pub ops_status_case : RunOps → RunStatus → RunStatus → RunStatus
ops_status_case ops current next =
    let allow_terminal_reentry = is_repairing next && is_some ops.retry_count in
    if is_terminal current && not (is_terminal next) && not allow_terminal_reentry
    then current
    else next

unfoldable pub set_ops : ℕ → RunOps → RunRow → RunRow
unfolding ops_status_case
set_ops now ops row = record row {
  status = elim ops.status [ none ↦ row.status | some next ↦ ops_status_case ops row.status next ];
  last_step = elim ops.last_step [ none ↦ row.last_step | some v ↦ some v ];
  error = ops.error or_default row.error;
  retry_count = ops.retry_count or_default row.retry_count;
  next_action = ops.next_action or_default row.next_action;
  updated_at = now;
}

unfoldable pub update_run_ops : ℕ → List RunRow → String → RunOps → List RunRow
update_run_ops now rows id ops = update_where (λ (r : RunRow). r.id === id) (set_ops now ops) rows

unfoldable pub find_run_by_id : List RunRow → String → Option RunRow
find_run_by_id rows id = find (λ (r : RunRow). r.id === id) rows

unfoldable pub find_run_by_workflow_id : List RunRow → String → Option RunRow
find_run_by_workflow_id rows workflow_id = find (λ (r : RunRow). r.workflow_id === workflow_id) rows

-- The first of the rows that either column names; without a clash there is one at most.
unfoldable pub find_run_by_id_or_workflow_id : List RunRow → String → Option RunRow
find_run_by_id_or_workflow_id rows key =
    find (λ (r : RunRow). r.id === key || r.workflow_id === key) rows
