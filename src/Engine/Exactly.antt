-- ===== src/Engine/Exactly.antt =====
-- Marks in reachable states: src/workflow/engine-custom.ts.
use sisu_kodo.Prelude.{
  ◌≤◌, String, Option, none, some, true, false, Bool, ◌≡◌, refl, arith, eq_iff, if◌then◌else◌,
}
use sisu_kodo.Engine.{WorkflowRow, s1, s2, Tables, find_row, mark_count, get_workflow_status}
use sisu_kodo.Engine.View.{View, view}
use sisu_kodo.Engine.Steps.{System, Reach}
use sisu_kodo.Engine.Steps.Good.{completed, Good}
use sisu_kodo.Engine.Steps.Invariant.{Reach-Inv}

success_only :
    (c : Bool) → ◌≡◌ {A = String} (if c then "SUCCESS" else "PENDING") "SUCCESS" → c ≡ true
success_only true h = refl
success_only false h = (eq_iff "PENDING" "SUCCESS").1 h

some_only : (s : String) → some s ≡ some "SUCCESS" → s ≡ "SUCCESS"
some_only s h = cc

pub status-completed :
    (db : Tables) (id : String)
    → get_workflow_status db id ≡ some "SUCCESS"
    → completed (view db id) ≡ true
unfolding get_workflow_status view
status-completed db id h = go (find_row db id) h
  where
    go :
        (o : Option WorkflowRow)
        → elim o as (λ x. Option String) [
          | none ↦ none
          | some row ↦ some (if row.completed then "SUCCESS" else "PENDING")
        ]
          ≡ some "SUCCESS"
        → elim o as (λ x. Bool) [ none ↦ false | some r ↦ r.completed ] ≡ true
    go none e = absurd (ground (arith, e))
    go (some row) e = success_only row.completed (some_only _ e)

pub completed-status :
    (db : Tables) (id : String)
    → completed (view db id) ≡ true
    → get_workflow_status db id ≡ some "SUCCESS"
unfolding get_workflow_status view
completed-status db id h = ground arith

once-Good : (v : View) → Good v → (v.marks1 ≤ 1) × (v.marks2 ≤ v.marks1)
once-Good v g = (g.once1, ground (arith, g.once2, g.marked1, g.order))

completed-Good : (v : View) → Good v → completed v ≡ true → (v.marks1 ≡ 1) × (v.marks2 ≡ 1)
completed-Good v g h = (g.marked1 (g.order (omega (arith, g.marked2 h))), g.marked2 h)

-- However processes interleave, crash and resume, a workflow's steps are each marked at most once,
-- and the second only after the first.
pub Reach-at_most_once :
    {s : System}
    → Reach s
    → (id : String)
    → (mark_count s.tables id s1 ≤ 1) × (mark_count s.tables id s2 ≤ mark_count s.tables id s1)
unfolding view
Reach-at_most_once {s} r id = once-Good _ ((Reach-Inv r).good id)

-- A workflow that reports success has each of its steps marked exactly once.
pub success-marks :
    {s : System}
    → Reach s
    → (id : String) → get_workflow_status s.tables id ≡ some "SUCCESS"
    → (mark_count s.tables id s1 ≡ 1) × (mark_count s.tables id s2 ≡ 1)
unfolding view
success-marks {s} r id h = completed-Good _ ((Reach-Inv r).good id) (status-completed s.tables id h)
