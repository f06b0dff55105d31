-- ===== src/Engine/Recovery.antt =====
-- What a crash leaves is finished by a process that resumes: src/workflow/engine-custom.ts.
use sisu_kodo.Prelude.{
  ℕ, String, Option, none, some, true, List, ◌≡◌, ◌⊎◌, refl, arith, Bool-cases, inl, inr,
  if◌then◌else◌, find-update_where, eq_iff, is_some, ◌∙◌, sym,
}
use sisu_kodo.Engine.{
  Tables, Task, Pc, scheduled, slept, marked, Phase, sleep_then_step2, done, s2, find_row, task_of,
  insert_mark, set_completed, take_phase, set_pc, get_workflow_status, WorkflowRow,
}
use sisu_kodo.Engine.View.{view, view-set_completed}
use sisu_kodo.Engine.Steps.{
  System, Step, insert, enlist, take, skip, mark, complete, fail, crash, Journey, stay, next, Reach,
  assign, HasTask,
}
use sisu_kodo.Engine.Steps.Good.{
  step1, step2, completed, Fit, marks2-insert_mark, AllGood, AllKept, insert_mark2-AllKept,
  take_phase-first, take_phase-later,
}
use sisu_kodo.Engine.Steps.Invariant.{Reach-Inv, take_phase-AllKept, take_phase-step1}
use sisu_kodo.Engine.Exactly.{completed-status}
use sisu_kodo.Engine.Resumed.Reached.{Journey-resumed}
use sisu_kodo.Engine.Resumed.{resumed, task_at, assign_self, resumed-HasTask}

-- The steps in which process `i` runs its own tasks.
abbrev pub IsOwn : ℕ → {s t : System} → Step s t → Type 0
IsOwn i (insert id) = ⊥
IsOwn i (enlist j id present) = ⊥
IsOwn i (take j id has sleeps) = i ≡ j
IsOwn i (skip j id has over) = i ≡ j
IsOwn i (mark j id has) = i ≡ j
IsOwn i (complete j id has) = i ≡ j
IsOwn i (fail j id) = ⊥
IsOwn i (crash j) = ⊥

-- Process `i` alone runs its tasks, and none of its statements rejects.
pub data Works (i : ℕ) : System → System → Type 0 where
  idle : {s : System} → Works i s s
  after : {s t u : System} (st : Step s t) → IsOwn i st → Works i t u → Works i s u

task_of-set_pc :
    (ts : List Task) (id : String) (p q : Pc)
    → task_of ts id ≡ some (task_at id p)
    → task_of (set_pc q ts id) id ≡ some (task_at id q)
unfolding set_pc
task_of-set_pc ts id p q h =
    find-update_where Task.workflow_id (λ t. record t { pc = q }) (λ t. refl) ts id id
    ∙ rw ((eq_iff id id).1 refl, h) refl

set_completed-completed :
    (db : Tables) (id : String)
    → is_some (view db id).row ≡ true
    → completed (view (set_completed db id) id) ≡ true
set_completed-completed db id h =
    rw (view-set_completed db id id, (eq_iff id id).1 refl) (ground arith)

-- A state in which process `i` has a task for this workflow.
record Ready (s : System) (i : ℕ) (id : String) (pc : Pc) : Type 0 where
  task : HasTask s i id pc
  good : AllGood s.tables
  fit : Fit pc (view s.tables id)

abbrev Finishes : ℕ → System → String → Type 0
Finishes i s id = (t : System) × Works i s t × (completed (view t.tables id) ≡ true)

prefix :
    {s t : System} (i : ℕ) (id : String) (st : Step s t)
    → IsOwn i st
    → Finishes i t id
    → Finishes i s id
prefix i id st own (u, p, h) = (u, after st own p, h)

Phase-cases : (p : Phase) → (p ≡ sleep_then_step2) ⊎ (p ≡ done)
Phase-cases sleep_then_step2 = inl refl
Phase-cases done = inr refl

take_phase-done :
    (db : Tables) (id : String)
    → AllGood db
    → (take_phase db id).0 ≡ done
    → completed (view (take_phase db id).1 id) ≡ true
take_phase-done db id g h = elim (Bool-cases (step1 (view db id))) [
  | inl later ↦ rw (take_phase-later db id later) (go (rw (take_phase-later db id later) at h))
  | inr first ↦ absurd (cc (sym h, take_phase-first db id first))
]
  where
    go :
        (if step2 (view db id) then done else sleep_then_step2) ≡ done
        → completed (view db id) ≡ true
    go e = elim (Bool-cases (step2 (view db id))) [
      | inl both ↦ sym (g id).together ∙ both
      | inr one ↦ absurd (cc (e, one))
    ]

module _ (i : ℕ) (id : String) where
  -- The task of `i` after it has moved on.
  task-moved :
      {s : System} {p : Pc}
      → Ready s i id p
      → (q : Pc) → task_of (assign s.tasks i (set_pc q (s.tasks i) id) i) id ≡ some (task_at id q)
  task-moved {s} {p} al q =
      rw (assign_self s.tasks i (set_pc q (s.tasks i) id))
        (task_of-set_pc (s.tasks i) id p q al.task)

  finish_marked : (s : System) → Ready s i id marked → Finishes i s id
  finish_marked s al = (
    _,
    after (complete i id al.task) refl idle,
    set_completed-completed s.tables id (ground (arith, al.fit.0)),
  )

  finish_slept : (s : System) → Ready s i id slept → Finishes i s id
  finish_slept s al = prefix i id (mark i id al.task) refl (
      finish_marked _ (record {
        task = task-moved al marked;
        good = λ k. (kept k).good;
        fit = ((kept id).step al.fit, marks2-insert_mark s.tables id al.good);
      }))
    where
      kept : AllKept s.tables (insert_mark s.tables id s2)
      kept = insert_mark2-AllKept s.tables id al.good al.fit

  finish_scheduled : (s : System) → Ready s i id scheduled → Finishes i s id
  finish_scheduled s al = elim (Phase-cases (take_phase s.tables id).0) [
    | inl sleeps ↦ prefix i id (take i id al.task sleeps) refl (
        finish_slept _ (record {
          task = task-moved al slept;
          good = λ k. (take_phase-AllKept s.tables id al.good k).good;
          fit = take_phase-step1 s.tables id;
        }))
    | inr over ↦
        (_, after (skip i id al.task over) refl idle, take_phase-done s.tables id al.good over)
  ]

is_some-view :
    (db : Tables) (id : String) → is_some (find_row db id) ≡ true → is_some (view db id).row ≡ true
unfolding view
is_some-view db id h = h

joined : {s t u : System} → Journey s t → Journey t u → Journey s u
joined p stay = p
joined p (next q st) = next (joined p q) st

succeeded :
    (db : Tables) (id : String) (row : WorkflowRow)
    → find_row db id ≡ some row
    → row.completed ≡ true
    → get_workflow_status db id ≡ some "SUCCESS"
unfolding get_workflow_status
succeeded db id row e over = ground (arith, e, over)

-- From every reachable state: when a process crashes and a new one resumes in its place, the state is
-- again a reachable one, and for every workflow on record there is a run of the new process, of its own
-- tasks only and with nothing scheduled but by resumeIncomplete, at whose end the workflow is a success.
pub Reach-recovers :
    {s : System} (i : ℕ) (id : String)
    → Reach s
    → is_some (find_row s.tables id) ≡ true
    → Reach (resumed s i)
      × (t : System) × Works i (resumed s i) t
      × (get_workflow_status t.tables id ≡ some "SUCCESS")
Reach-recovers {s} i id r present =
    let (t, p, h) = go (find_row s.tables id) refl in (joined r (Journey-resumed s i), t, p, h)
  where
    started : HasTask (resumed s i) i id scheduled → Finishes i (resumed s i) id
    started has =
        finish_scheduled i id (resumed s i)
          (record { task = has; good = (Reach-Inv r).good; fit = is_some-view s.tables id present })

    go :
        (o : Option WorkflowRow)
        → find_row s.tables id ≡ o
        → (t : System) × Works i (resumed s i) t
          × (get_workflow_status t.tables id ≡ some "SUCCESS")
    go none e = absurd (cc (present, e))
    go (some row) e = elim (Bool-cases row.completed) [
      | inl over ↦ (_, idle, succeeded s.tables id row e over)
      | inr open_ ↦
          let (t, p, h) = started (resumed-HasTask s i id row e open_) in
          (t, p, completed-status t.tables id h)
    ]
