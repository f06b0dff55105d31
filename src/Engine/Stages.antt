-- ===== src/Engine/Stages.antt =====
-- A workflow as a client sees it, five stages in a row, and the engine as their implementation:
-- src/workflow/engine-custom.ts.
use sisu_kodo.Prelude.{
  ℕ, ltb, String, Option, none, some, true, false, ◌≡◌, ◌⊎◌, refl, arith, Bool-cases, Option-cases,
  inl, inr, if◌then◌else◌, ◌===◌, eq_iff, is_some,
}
use sisu_kodo.Engine.{
  WorkflowRow, Tables, Pc, s1, s2, find_row, insert_workflow, insert_mark, set_completed,
  take_phase, mark_count,
}
use sisu_kodo.Engine.View.{
  View, view, insert_view, mark_view, step1_view, completed_view, view-insert_workflow,
  view-insert_mark, view-set_step1_done, view-set_completed,
}
use sisu_kodo.Engine.Steps.{
  System, Step, insert, enlist, take, skip, mark, complete, fail, crash, Reach, HasTask,
}
use sisu_kodo.Engine.Steps.Good.{
  step1, completed, Good, Fit, AllGood, first_phase, take_phase-first, take_phase-later,
}
use sisu_kodo.Engine.Steps.Invariant.{Reach-Inv, task_of-Fit}

-- The promise: a workflow is created, does step 1, then step 2, then reports success.
pub data Stage : Type 0 where
  absent created first second finished : Stage

pub data Advance : Stage → Stage → Type 0 where
  create : Advance absent created
  do_step1 : Advance created first
  do_step2 : Advance first second
  report : Advance second finished

stage_of : Option WorkflowRow → ℕ → Stage
stage_of none marks2 = absent
stage_of (some r) marks2 =
    if r.completed
    then finished
    else if ltb 0 marks2
    then second
    else if r.step1_done
    then first
    else created

unfoldable pub stage : Tables → String → Stage
unfolding stage_of
stage db id = stage_of (find_row db id) (mark_count db id s2)

abbrev Refines : View → View → Type 0
Refines v w =
    (stage_of w.row w.marks2 ≡ stage_of v.row v.marks2)
    ⊎ Advance (stage_of v.row v.marks2) (stage_of w.row w.marks2)

Advance-by : {x y x' y' : Stage} → x ≡ x' → y ≡ y' → Advance x' y' → Advance x y
Advance-by p q st = rw (p, q) st

Refines-insert : (k : String) (v : View) → Good v → Refines v (insert_view k v)
unfolding stage_of
Refines-insert k v g = elim (Option-cases v.row) [
  | inl missing ↦ inr (Advance-by (ground (arith, missing)) (ground (arith, missing)) create)
  | inr (r, found) ↦ inl (ground (arith, found))
]

Refines-first :
    (k : String) (v : View)
    → Good v
    → is_some v.row ≡ true
    → step1 v ≡ false
    → Refines v (step1_view (mark_view s1 (insert_view k v)))
unfolding stage_of
Refines-first k v g p h = elim (Bool-cases (ltb 0 v.marks2)) [
  | inl some_mark ↦ absurd (ground (arith, some_mark))
  | inr unmarked ↦ inr (Advance-by (ground (arith, unmarked)) (ground (arith, unmarked)) do_step1)
]

Refines-mark : (v : View) → Good v → step1 v ≡ true → Refines v (mark_view s2 v)
unfolding stage_of
Refines-mark v g h = elim (Bool-cases (ltb 0 v.marks2)) [
  | inl before ↦ inl (ground (arith, before))
  | inr unmarked ↦ inr (Advance-by (ground (arith, unmarked)) (ground (arith, unmarked)) do_step2)
]

Refines-completed :
    (v : View) → Good v → (step1 v ≡ true) × (v.marks2 ≡ 1) → Refines v (completed_view v)
unfolding stage_of
Refines-completed v g h = elim (Bool-cases (completed v)) [
  | inl before ↦ inl (ground (arith, before))
  | inr open_yet ↦ inr (Advance-by (ground (arith, open_yet)) (ground (arith, open_yet)) report)
]

Refines-at :
    (f : String → View → View) (db db' : Tables) (id k : String)
    → view db' k ≡ (if k === id then f k (view db k) else view db k)
    → Refines (view db id) (f id (view db id))
    → Refines (view db k) (view db' k)
Refines-at f db db' id k e h = elim (Bool-cases (k === id)) [
  | inl same ↦ rw (e, same, (eq_iff k id).0 same) h
  | inr other ↦ rw (e, other) (inl refl)
]

view-first_phase :
    (db : Tables) (id k : String)
    → view (first_phase db id) k
      ≡ (if k === id then step1_view (mark_view s1 (insert_view k (view db k))) else view db k)
view-first_phase db id k = elim (Bool-cases (k === id)) [
  | inl same ↦
      rw
        (
          view-set_step1_done (insert_mark (insert_workflow db id) id s1) id k,
          view-insert_mark (insert_workflow db id) id s1 k,
          view-insert_workflow db id k,
          same,
        )
        refl
  | inr other ↦
      rw
        (
          view-set_step1_done (insert_mark (insert_workflow db id) id s1) id k,
          view-insert_mark (insert_workflow db id) id s1 k,
          view-insert_workflow db id k,
          other,
        )
        refl
]

Refines-take_phase :
    (db : Tables) (id k : String)
    → AllGood db
    → is_some (view db id).row ≡ true
    → Refines (view db k) (view (take_phase db id).1 k)
Refines-take_phase db id k g present = elim (Bool-cases (step1 (view db id))) [
  | inl later ↦ rw (take_phase-later db id later) (inl refl)
  | inr first_time ↦ rw (take_phase-first db id first_time) (
      Refines-at (λ j v. step1_view (mark_view s1 (insert_view j v))) db (first_phase db id) id k
        (view-first_phase db id k) (Refines-first id (view db id) (g id) present first_time))
]

-- Every step of a reachable system leaves a workflow's stage as it is or takes it to the next one.
pub Step-Refines :
    {s t : System}
    → Reach s
    → Step s t
    → (k : String)
    → (stage t.tables k ≡ stage s.tables k) ⊎ Advance (stage s.tables k) (stage t.tables k)
unfolding stage view
Step-Refines {s} r st k = go st
  where
    g : AllGood s.tables
    g = (Reach-Inv r).good

    fits : (i : ℕ) (id : String) {pc : Pc} → HasTask s i id pc → Fit pc (view s.tables id)
    fits i id task = task_of-Fit s.tables (s.tasks i) id ((Reach-Inv r).tasks i) task

    go : {t : System} → Step s t → Refines (view s.tables k) (view t.tables k)
    go (insert id) =
        Refines-at insert_view s.tables (insert_workflow s.tables id) id k
          (view-insert_workflow s.tables id k) (Refines-insert id (view s.tables id) (g id))
    go (enlist i id present) = inl refl
    go (take i id task phase) = Refines-take_phase s.tables id k g (fits i id task)
    go (skip i id task phase) = Refines-take_phase s.tables id k g (fits i id task)
    go (mark i id task) =
        Refines-at (λ j. mark_view s2) s.tables (insert_mark s.tables id s2) id k
          (view-insert_mark s.tables id s2 k)
          (Refines-mark (view s.tables id) (g id) (fits i id task))
    go (complete i id task) =
        Refines-at (λ j. completed_view) s.tables (set_completed s.tables id) id k
          (view-set_completed s.tables id k)
          (Refines-completed (view s.tables id) (g id) (fits i id task))
    go (fail i id) = inl refl
    go (crash i) = inl refl
