-- ===== src/Engine/Resumed/Reached.antt =====
-- A process that resumes is a process that crashed and scheduled ids of the table, one by one:
-- src/workflow/engine-custom.ts.
use sisu_kodo.Prelude.{
  ℕ, String, Bool, true, false, not, List, [], ◌∷◌, ◌≡◌, refl, ap, ◌∙◌, fun_ext, arith, All,
  is_some, map, filter, find, ◌===◌, ◌==◌, eq_iff, if◌then◌else◌,
}
use sisu_kodo.Engine.{Task, WorkflowRow, schedule, schedule_all, incomplete, resume_incomplete}
use sisu_kodo.Engine.Steps.{System, enlist, crash, Journey, next, stay, assign}
use sisu_kodo.Engine.Resumed.{resumed}

abbrev Listed : List WorkflowRow → String → Type 0
Listed rows id = is_some (find (λ (r : WorkflowRow). r.workflow_id === id) rows) ≡ true

All-Listed :
    (row : WorkflowRow) (rows : List WorkflowRow) (ids : List String)
    → All (Listed rows) ids
    → All (Listed (row ∷ rows)) ids
All-Listed row rows [] h = tt
All-Listed row rows (id ∷ ids) (h, hs) = (ground (arith, h), All-Listed row rows ids hs)

abbrev waiting : List WorkflowRow → List String
waiting rows =
    map (λ (r : WorkflowRow). r.workflow_id) (filter (λ (r : WorkflowRow). not r.completed) rows)

waiting-Listed : (rows : List WorkflowRow) → All (Listed rows) (waiting rows)
waiting-Listed [] = tt
waiting-Listed (r ∷ rows) =
    let later = All-Listed r rows (waiting rows) (waiting-Listed rows) in
    let rest = filter (λ (x : WorkflowRow). not x.completed) rows in
    elim r.completed
      as (λ over.
        All (Listed (r ∷ rows))
          (map (λ (x : WorkflowRow). x.workflow_id) (if not over then r ∷ rest else rest))) [
            | true ↦ later
            | false ↦ (ground (arith, eq_iff r.workflow_id r.workflow_id), later)
          ]

module _ (s : System) (i : ℕ) where
  -- The state with the tasks of `i` replaced.
  abbrev with_tasks : List Task → System
  with_tasks ts = record s { tasks = assign s.tasks i ts }

  assign_twice : (ts us : List Task) → assign (assign s.tasks i ts) i us ≡ assign s.tasks i us
  assign_twice ts us = fun_ext λ j. go j (i == j)
    where
      go :
          (j : ℕ) (b : Bool)
          → (if b then us else if b then ts else s.tasks j) ≡ (if b then us else s.tasks j)
      go j true = refl
      go j false = refl

  assign_at : (ts : List Task) → assign s.tasks i ts i ≡ ts
  assign_at ts = ground arith

  enlisted :
      (ids : List String) (ts : List Task)
      → All (Listed s.tables.workflow_runs) ids
      → Journey s (with_tasks ts)
      → Journey s (with_tasks (schedule_all ts ids))
  unfolding schedule_all
  enlisted [] ts h p = p
  enlisted (id ∷ ids) ts (h, hs) p =
      enlisted ids (schedule ts id) hs (rw same at (next p (enlist i id h)))
    where
      same :
          assign (assign s.tasks i ts) i (schedule (assign s.tasks i ts i) id)
          ≡ assign s.tasks i (schedule ts id)
      same =
          ap (λ us. assign (assign s.tasks i ts) i (schedule us id)) (assign_at ts)
          ∙ assign_twice ts (schedule ts id)

  pub Journey-resumed : Journey s (resumed s i)
  unfolding resume_incomplete incomplete
  Journey-resumed =
      enlisted (waiting s.tables.workflow_runs) [] (waiting-Listed s.tables.workflow_runs)
        (next stay (crash i))
