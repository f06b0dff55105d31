-- ===== src/Engine.antt =====
-- The custom engine of the crash demo: src/workflow/engine-custom.ts.
-- Processes share the tables app.workflow_runs and app.marks. A call that awaits the database is cut
-- at its statements, each of which is one function of the tables; the transaction of `takePhase` is
-- one function. `updated_at` is written and never read.
pub mod View
pub mod Steps
pub mod Exactly
pub mod Resumed
pub mod Recovery
pub mod Stages
pub mod Waiting
use sisu_kodo.Prelude.{
  String, Bool, true, false, not, Option, none, some, List, [], ◌∷◌, ◌===◌, ◌&&◌, ◌||◌, find, any,
  filter, update_where, count, is_some, if◌then◌else◌, map, ℕ, ◌or_default◌,
}

pub data Phase : Type 0 where
  sleep_then_step2 done : Phase

pub data MarkStep : Type 0 where
  s1 s2 : MarkStep

pub record WorkflowRow : Type 0 where
  pub workflow_id : String
  pub step1_done : Bool
  pub step2_done : Bool
  pub completed : Bool

pub record Mark : Type 0 where
  pub run_id : String
  pub step : MarkStep

pub record Tables : Type 0 where
  pub workflow_runs : List WorkflowRow
  pub marks : List Mark

abbrev pub same_step : MarkStep → MarkStep → Bool
same_step s1 s1 = true
same_step s1 s2 = false
same_step s2 s1 = false
same_step s2 s2 = true

-- A row with the columns' defaults.
abbrev pub new_row : String → WorkflowRow
new_row id = record { workflow_id = id; step1_done = false; step2_done = false; completed = false }

abbrev pub find_row : Tables → String → Option WorkflowRow
find_row db id = find (λ (r : WorkflowRow). r.workflow_id === id) db.workflow_runs

abbrev pub is_mark : String → MarkStep → Mark → Bool
is_mark id step m = m.run_id === id && same_step m.step step

-- INSERT INTO app.workflow_runs … ON CONFLICT (workflow_id) DO NOTHING
unfoldable pub insert_workflow : Tables → String → Tables
insert_workflow db id =
    if is_some (find_row db id)
    then db
    else record db { workflow_runs = new_row id ∷ db.workflow_runs }

-- INSERT INTO app.marks … ON CONFLICT (run_id, step) DO NOTHING
unfoldable pub insert_mark : Tables → String → MarkStep → Tables
insert_mark db id step =
    if any (is_mark id step) db.marks
    then db
    else record db { marks = record { run_id = id; step = step } ∷ db.marks }

abbrev pub step1_row : WorkflowRow → WorkflowRow
step1_row r = record r { step1_done = true }

abbrev pub completed_row : WorkflowRow → WorkflowRow
completed_row r = record r { step2_done = true; completed = true }

unfoldable pub set_step1_done : Tables → String → Tables
set_step1_done db id = record db {
  workflow_runs =
      update_where (λ (r : WorkflowRow). r.workflow_id === id) step1_row db.workflow_runs;
}

unfoldable pub set_completed : Tables → String → Tables
set_completed db id = record db {
  workflow_runs =
      update_where (λ (r : WorkflowRow). r.workflow_id === id) completed_row db.workflow_runs;
}

abbrev pub phase_of : WorkflowRow → Phase
phase_of row = if not row.step1_done || not row.step2_done then sleep_then_step2 else done

-- The transaction: the row that it reads stays locked to its commit.
unfoldable pub take_phase : Tables → String → Phase × Tables
take_phase db id =
    let row = find_row db id or_default new_row id in
    let present = insert_workflow db id in
    if not row.step1_done
    then (sleep_then_step2, set_step1_done (insert_mark present id s1) id)
    else (phase_of row, present)

-- The whole of `run` when nothing else happens in between.
unfoldable pub run : Tables → String → Tables
run db id = elim (take_phase db id).0 [
  | done ↦ (take_phase db id).1
  | sleep_then_step2 ↦ set_completed (insert_mark (take_phase db id).1 id s2) id
]

-- The ids that `resumeIncomplete` schedules.
unfoldable pub incomplete : Tables → List String
incomplete db =
    map (λ (r : WorkflowRow). r.workflow_id)
      (filter (λ (r : WorkflowRow). not r.completed) db.workflow_runs)

unfoldable pub mark_count : Tables → String → MarkStep → ℕ
mark_count db id step = count (is_mark id step) db.marks

unfoldable pub get_workflow_status : Tables → String → Option String
get_workflow_status db id = elim (find_row db id) [
  | none ↦ none
  | some row ↦ some (if row.completed then "SUCCESS" else "PENDING")
]

-- Where a scheduled `run` stands: before `takePhase`, after it, after the mark of step 2.
pub data Pc : Type 0 where
  scheduled slept marked : Pc

pub record Task : Type 0 where
  pub workflow_id : String
  pub pc : Pc

-- `this.active` holds the ids of the tasks.
abbrev pub task_of : List Task → String → Option Task
task_of tasks id = find (λ (t : Task). t.workflow_id === id) tasks

unfoldable pub schedule : List Task → String → List Task
schedule tasks id =
    if is_some (task_of tasks id)
    then tasks
    else record { workflow_id = id; pc = scheduled } ∷ tasks

unfoldable pub set_pc : Pc → List Task → String → List Task
set_pc pc tasks id =
    update_where (λ (t : Task). t.workflow_id === id) (λ t. record t { pc = pc }) tasks

-- `this.active.delete(workflowId)`
unfoldable pub finish : List Task → String → List Task
finish tasks id = filter (λ (t : Task). not (t.workflow_id === id)) tasks

-- A process on its own: the insertion, then the scheduling.
unfoldable pub start_crash_demo : Tables × List Task → String → Tables × List Task
start_crash_demo (db, tasks) id = (insert_workflow db id, schedule tasks id)

unfoldable pub schedule_all : List Task → List String → List Task
schedule_all tasks [] = tasks
schedule_all tasks (id ∷ ids) = schedule_all (schedule tasks id) ids

unfoldable pub resume_incomplete : Tables × List Task → Tables × List Task
resume_incomplete (db, tasks) = (db, schedule_all tasks (incomplete db))
