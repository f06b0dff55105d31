-- ===== src/Engine/Resumed.antt =====
-- The tasks of a process that resumes: resumeIncomplete of src/workflow/engine-custom.ts.
pub mod Reached
use sisu_kodo.Prelude.{
  ℕ, String, none, some, true, false, not, List, [], ◌∷◌, ◌≡◌, ◌⊎◌, refl, arith, Bool-cases, inl,
  inr, any, map, filter, find, ◌===◌, eq_iff, is_some, ◌∙◌,
}
use sisu_kodo.Engine.{
  Task, Pc, scheduled, find_row, task_of, schedule, WorkflowRow, schedule_all, incomplete,
  resume_incomplete,
}
use sisu_kodo.Engine.Steps.{System, assign, HasTask}

-- Process `i` has crashed, and a new one has resumed in its place.
abbrev pub resumed : System → ℕ → System
resumed s i = record s { tasks = assign s.tasks i (resume_incomplete (s.tables, [])).1 }

abbrev pub task_at : String → Pc → Task
task_at id pc = record { workflow_id = id; pc = pc }

pub assign_self : (all : ℕ → List Task) (i : ℕ) (ts : List Task) → assign all i ts i ≡ ts
assign_self all i ts = ground arith

-- No task, or one that has not begun.
abbrev Fresh : List Task → String → Type 0
Fresh ts id = (task_of ts id ≡ none) ⊎ (task_of ts id ≡ some (task_at id scheduled))

schedule-scheduled :
    (ts : List Task) (id : String)
    → Fresh ts id
    → task_of (schedule ts id) id ≡ some (task_at id scheduled)
unfolding schedule
schedule-scheduled ts id (inl e) = ground (arith, e, eq_iff id id)
schedule-scheduled ts id (inr e) = ground (arith, e)

schedule_other :
    (ts : List Task) (id j : String) → j === id ≡ false → task_of (schedule ts j) id ≡ task_of ts id
unfolding schedule
schedule_other ts id j apart = elim (Bool-cases (is_some (task_of ts j))) [
  | inl there ↦ rw there refl
  | inr missing ↦ rw (missing, apart) refl
]

schedule-Fresh : (ts : List Task) (id j : String) → Fresh ts id → Fresh (schedule ts j) id
schedule-Fresh ts id j f = elim (Bool-cases (j === id)) [
  | inl same ↦ let e : j ≡ id = (eq_iff j id).0 same in rw e (inr (schedule-scheduled ts id f))
  | inr other ↦ elim f [
    | inl e ↦ inl (schedule_other ts id j other ∙ e)
    | inr e ↦ inr (schedule_other ts id j other ∙ e)
  ]
]

schedule_all-scheduled :
    (ids : List String) (ts : List Task) (id : String)
    → Fresh ts id
    → (any (λ k. k === id) ids ≡ true) ⊎ (task_of ts id ≡ some (task_at id scheduled))
    → task_of (schedule_all ts ids) id ≡ some (task_at id scheduled)
unfolding schedule_all
schedule_all-scheduled [] ts id f (inl h) = cc
schedule_all-scheduled [] ts id f (inr h) = h
schedule_all-scheduled (j ∷ ids) ts id f h =
    schedule_all-scheduled ids (schedule ts j) id (schedule-Fresh ts id j f) (kept h)
  where
    kept :
        (any (λ k. k === id) (j ∷ ids) ≡ true) ⊎ (task_of ts id ≡ some (task_at id scheduled))
        → (any (λ k. k === id) ids ≡ true)
          ⊎ (task_of (schedule ts j) id ≡ some (task_at id scheduled))
    kept h = elim (Bool-cases (j === id)) [
      | inl same ↦ let e : j ≡ id = (eq_iff j id).0 same in rw e (inr (schedule-scheduled ts id f))
      | inr other ↦ elim h [
        | inl listed ↦ inl (ground (arith, other, listed))
        | inr there ↦ inr (schedule_other ts id j other ∙ there)
      ]
    ]

-- A workflow whose row is not completed is one of those that are resumed.
incomplete-any :
    (rows : List WorkflowRow) (id : String) (row : WorkflowRow)
    → find (λ (r : WorkflowRow). r.workflow_id === id) rows ≡ some row
    → row.completed ≡ false
    → any
        (λ k. k === id)
        (map
          (λ (r : WorkflowRow). r.workflow_id)
          (filter (λ (r : WorkflowRow). not r.completed) rows))
      ≡ true
incomplete-any [] id row f h = cc
incomplete-any (r ∷ rows) id row f h = elim (Bool-cases (r.workflow_id === id)) [
  | inl same ↦ let e : r ≡ row = ground (arith, f, same) in rw e (ground (arith, h, same, e))
  | inr other ↦ ground (arith, other, f, incomplete-any rows id row)
]

pub resumed-HasTask :
    (s : System) (i : ℕ) (id : String) (row : WorkflowRow)
    → find_row s.tables id ≡ some row
    → row.completed ≡ false
    → HasTask (resumed s i) i id scheduled
unfolding resume_incomplete incomplete
resumed-HasTask s i id row f h =
    rw (assign_self s.tasks i (schedule_all [] (incomplete s.tables))) (
      schedule_all-scheduled (incomplete s.tables) [] id (inl refl)
        (inl (incomplete-any s.tables.workflow_runs id row f h)))
