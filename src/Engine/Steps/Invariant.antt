-- ===== src/Engine/Steps/Invariant.antt =====
-- Every step of every process keeps what the rows promise and what the tasks rely on:
-- src/workflow/engine-custom.ts.
use sisu_kodo.Prelude.{
  ℕ, String, true, some, List, [], ◌∷◌, All, All-map, All-filter, All-update_where, ◌===◌, is_some,
  ◌≡◌, refl, arith, eq_iff, Bool-cases, inl, inr, ◌==◌,
}
use sisu_kodo.Engine.{
  Tables, Task, Pc, slept, marked, s1, s2, find_row, task_of, insert_workflow, insert_mark,
  set_completed, take_phase, schedule, set_pc, finish,
}
use sisu_kodo.Engine.View.{view, view-set_step1_done, view-insert_mark, view-insert_workflow}
use sisu_kodo.Engine.Steps.{
  System, Step, insert, enlist, take, skip, mark, complete, fail, crash, Journey, Reach, stay, next,
  assign, empty,
}
use sisu_kodo.Engine.Steps.Good.{
  step1, Fit, fit, AllGood, AllKept, AllKept-trans, insert_workflow-AllKept, insert_mark1-AllKept,
  insert_mark2-AllKept, set_step1_done-AllKept, set_completed-AllKept, first_phase, Kept-refl,
  take_phase-first, take_phase-later, marks1-insert_mark, marks2-insert_mark,
}

first_phase-AllKept : (db : Tables) (id : String) → AllGood db → AllKept db (first_phase db id)
first_phase-AllKept db id g = AllKept-trans _ _ _ (AllKept-trans _ _ _ kept1 kept2) (
    set_step1_done-AllKept _ id (λ k. (kept2 k).good)
      (marks1-insert_mark (insert_workflow db id) id good1))
  where
    kept1 : AllKept db (insert_workflow db id)
    kept1 = insert_workflow-AllKept db id g

    good1 : AllGood (insert_workflow db id)
    good1 k = (kept1 k).good

    kept2 : AllKept (insert_workflow db id) (insert_mark (insert_workflow db id) id s1)
    kept2 = insert_mark1-AllKept (insert_workflow db id) id good1

pub take_phase-AllKept : (db : Tables) (id : String) → AllGood db → AllKept db (take_phase db id).1
take_phase-AllKept db id g = elim (Bool-cases (step1 (view db id))) [
  | inl later ↦ rw (take_phase-later db id later) (λ k. Kept-refl (view db k) (g k))
  | inr first ↦ rw (take_phase-first db id first) (first_phase-AllKept db id g)
]

-- After the transaction step 1 is done.
pub take_phase-step1 : (db : Tables) (id : String) → step1 (view (take_phase db id).1 id) ≡ true
take_phase-step1 db id = elim (Bool-cases (step1 (view db id))) [
  | inl later ↦ rw (take_phase-later db id later) later
  | inr first ↦ rw (take_phase-first db id first) (
      rw
        (
          view-set_step1_done _ id id,
          view-insert_mark _ id s1 id,
          view-insert_workflow db id id,
          (eq_iff id id).1 refl,
        )
        refl)
]

abbrev FitTask : Tables → Task → Type 0
FitTask db t = Fit t.pc (view db t.workflow_id)

pub record Inv (s : System) : Type 0 where
  pub good : AllGood s.tables
  pub tasks : (i : ℕ) → All (FitTask s.tables) (s.tasks i)

pub task_of-Fit :
    (db : Tables) (ts : List Task) (id : String) {t : Task}
    → All (FitTask db) ts
    → task_of ts id ≡ some t
    → FitTask db t
task_of-Fit db [] id a e = cc
task_of-Fit db (t ∷ ts) id {t = t'} (h, hs) e = elim (Bool-cases (t.workflow_id === id)) [
  | inl hit ↦ rw (← t_is_found hit) h
  | inr miss ↦ task_of-Fit db ts id hs (ground (arith, e, miss))
]
  where
    t_is_found : t.workflow_id === id ≡ true → t ≡ t'
    t_is_found hit = ground (arith, e, hit)

AllKept-FitTask :
    (db db' : Tables) (ts : List Task) → AllKept db db' → All (FitTask db) ts → All (FitTask db') ts
AllKept-FitTask db db' ts kept a =
    All-map (FitTask db) (FitTask db') (λ t. fit (kept t.workflow_id) t.pc) ts a

set_pc-FitTask :
    (db : Tables) (pc : Pc) (ts : List Task) (id : String)
    → Fit pc (view db id)
    → All (FitTask db) ts
    → All (FitTask db) (set_pc pc ts id)
unfolding set_pc
set_pc-FitTask db pc ts id f a =
    All-update_where (FitTask db) (FitTask db) (λ (t : Task). t.workflow_id === id)
      (λ t. record t { pc = pc }) (λ t hit h. rw ((eq_iff t.workflow_id id).0 hit) f)
      (λ t miss h. h) ts a

finish-FitTask :
    (db : Tables) (ts : List Task) (id : String)
    → All (FitTask db) ts
    → All (FitTask db) (finish ts id)
unfolding finish
finish-FitTask db ts id a = All-filter (FitTask db) _ ts a

schedule-FitTask :
    (db : Tables) (ts : List Task) (id : String)
    → is_some (find_row db id) ≡ true
    → All (FitTask db) ts
    → All (FitTask db) (schedule ts id)
unfolding schedule view
schedule-FitTask db ts id present a = elim (Bool-cases (is_some (task_of ts id))) [
  | inl active ↦ rw active a
  | inr idle ↦ rw idle (present, a)
]

-- The invariant when tables and the tasks of one process change.
Inv-change :
    (s : System) (db : Tables) (i : ℕ) (ts : List Task)
    → Inv s
    → AllKept s.tables db
    → All (FitTask db) ts
    → Inv (record { tables = db; tasks = assign s.tasks i ts })
Inv-change s db i ts inv kept new = record { good = λ k. (kept k).good; tasks = all_fit }
  where
    all_fit : (j : ℕ) → All (FitTask db) (assign s.tasks i ts j)
    all_fit j = elim (Bool-cases (i == j)) [
      | inl same ↦ rw same new
      | inr other ↦ rw other (AllKept-FitTask s.tables db (s.tasks j) kept (inv.tasks j))
    ]

pub Step-Inv : {s t : System} → Step s t → Inv s → Inv t
Step-Inv {s} (insert id) inv = record {
  good = λ k. (kept k).good;
  tasks = λ i. AllKept-FitTask s.tables _ (s.tasks i) kept (inv.tasks i);
}
  where
    kept : AllKept s.tables (insert_workflow s.tables id)
    kept = insert_workflow-AllKept s.tables id inv.good
Step-Inv {s} (enlist i id present) inv =
    Inv-change s s.tables i (schedule (s.tasks i) id) inv (λ k. Kept-refl _ (inv.good k))
      (schedule-FitTask s.tables (s.tasks i) id present (inv.tasks i))
Step-Inv {s} (take i id task phase) inv = Inv-change s _ i _ inv kept (
    set_pc-FitTask _ slept (s.tasks i) id (take_phase-step1 s.tables id)
      (AllKept-FitTask s.tables _ (s.tasks i) kept (inv.tasks i)))
  where
    kept : AllKept s.tables (take_phase s.tables id).1
    kept = take_phase-AllKept s.tables id inv.good
Step-Inv {s} (skip i id task phase) inv =
    Inv-change s _ i _ inv kept
      (finish-FitTask _ (s.tasks i) id (AllKept-FitTask s.tables _ (s.tasks i) kept (inv.tasks i)))
  where
    kept : AllKept s.tables (take_phase s.tables id).1
    kept = take_phase-AllKept s.tables id inv.good
Step-Inv {s} (mark i id task) inv = Inv-change s _ i _ inv kept (
    set_pc-FitTask _ marked (s.tasks i) id
      ((kept id).step slept_fit, marks2-insert_mark s.tables id inv.good)
      (AllKept-FitTask s.tables _ (s.tasks i) kept (inv.tasks i)))
  where
    slept_fit : step1 (view s.tables id) ≡ true
    slept_fit = task_of-Fit s.tables (s.tasks i) id (inv.tasks i) task

    kept : AllKept s.tables (insert_mark s.tables id s2)
    kept = insert_mark2-AllKept s.tables id inv.good slept_fit
Step-Inv {s} (complete i id task) inv =
    Inv-change s _ i _ inv kept
      (finish-FitTask _ (s.tasks i) id (AllKept-FitTask s.tables _ (s.tasks i) kept (inv.tasks i)))
  where
    kept : AllKept s.tables (set_completed s.tables id)
    kept =
        set_completed-AllKept s.tables id inv.good
          ((task_of-Fit s.tables (s.tasks i) id (inv.tasks i) task).1)
Step-Inv {s} (fail i id) inv =
    Inv-change s s.tables i _ inv (λ k. Kept-refl _ (inv.good k))
      (finish-FitTask s.tables (s.tasks i) id (inv.tasks i))
Step-Inv {s} (crash i) inv = Inv-change s s.tables i [] inv (λ k. Kept-refl _ (inv.good k)) tt

Inv-empty : Inv empty
unfolding view
Inv-empty = record {
  good = λ k. record {
    once1 = ground arith;
    once2 = ground arith;
    marked1 = ground arith;
    order = ground arith;
    marked2 = ground arith;
    together = refl;
  };
  tasks = λ i. tt;
}

pub Journey-Inv : {s t : System} → Journey s t → Inv s → Inv t
Journey-Inv stay inv = inv
Journey-Inv (next p st) inv = Step-Inv st (Journey-Inv p inv)

pub Reach-Inv : {s : System} → Reach s → Inv s
Reach-Inv r = Journey-Inv r Inv-empty
