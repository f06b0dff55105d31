-- ===== src/Engine/Steps.antt =====
-- Processes that share the tables, interleaved statement by statement, with crashes:
-- src/workflow/engine-custom.ts.
pub mod Good
pub mod Invariant
use sisu_kodo.Prelude.{
  ℕ, String, Bool, true, false, Option, none, some, List, [], ◌==◌, is_some, if◌then◌else◌, ◌≡◌,
}
use sisu_kodo.Engine.{
  Tables, Task, Pc, scheduled, slept, marked, Phase, sleep_then_step2, done, s2, find_row, task_of,
  insert_workflow, insert_mark, set_completed, take_phase, schedule, set_pc, finish,
}

-- The tasks of process `i` are its active set.
pub record System : Type 0 where
  pub tables : Tables
  pub tasks : ℕ → List Task

abbrev pub assign : (ℕ → List Task) → ℕ → List Task → ℕ → List Task
assign all i ts j = if i == j then ts else all j

abbrev pub HasTask : System → ℕ → String → Pc → Type 0
HasTask s i id pc = task_of (s.tasks i) id ≡ some (record { workflow_id = id; pc = pc })

-- `insert` is the statement of `startCrashDemo`, and `enlist` the scheduling that follows it or the
-- SELECT of `resumeIncomplete`: rows are not deleted, so the row is still there. `fail` is a
-- statement that rejects, after which `finally` drops the task.
pub data Step (s : System) : System → Type 0 where
  insert : (id : String) → Step s (record s { tables = insert_workflow s.tables id })
  enlist :
      (i : ℕ) (id : String)
      → is_some (find_row s.tables id) ≡ true
      → Step s (record s { tasks = assign s.tasks i (schedule (s.tasks i) id) })
  take :
      (i : ℕ) (id : String)
      → HasTask s i id scheduled
      → (take_phase s.tables id).0 ≡ sleep_then_step2
      → Step s (record {
        tables = (take_phase s.tables id).1;
        tasks = assign s.tasks i (set_pc slept (s.tasks i) id);
      })
  skip :
      (i : ℕ) (id : String)
      → HasTask s i id scheduled
      → (take_phase s.tables id).0 ≡ done
      → Step s (record {
        tables = (take_phase s.tables id).1;
        tasks = assign s.tasks i (finish (s.tasks i) id);
      })
  mark :
      (i : ℕ) (id : String)
      → HasTask s i id slept
      → Step s (record {
        tables = insert_mark s.tables id s2;
        tasks = assign s.tasks i (set_pc marked (s.tasks i) id);
      })
  complete :
      (i : ℕ) (id : String)
      → HasTask s i id marked
      → Step s (record {
        tables = set_completed s.tables id;
        tasks = assign s.tasks i (finish (s.tasks i) id);
      })
  fail :
      (i : ℕ) (id : String) → Step s (record s { tasks = assign s.tasks i (finish (s.tasks i) id) })
  crash : (i : ℕ) → Step s (record s { tasks = assign s.tasks i [] })

abbrev pub empty : System
empty = record { tables = record { workflow_runs = []; marks = [] }; tasks = λ _. [] }

pub data Journey (s : System) : System → Type 0 where
  stay : Journey s s
  next : {t u : System} → Journey s t → Step t u → Journey s u

abbrev pub Reach : System → Type 0
Reach s = Journey empty s
