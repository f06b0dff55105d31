-- ===== src/Engine/Steps/Good.antt =====
-- What holds of a workflow's rows in every reachable state: src/workflow/engine-custom.ts.
use sisu_kodo.Prelude.{
  ◌≤◌, ◌<◌, String, Bool, true, false, none, some, ◌===◌, is_some, if◌then◌else◌, ◌≡◌, refl, arith,
  eq_iff, Bool-cases, Option-cases, inl, inr,
}
use sisu_kodo.Engine.{
  WorkflowRow, Tables, Pc, scheduled, slept, marked, sleep_then_step2, done, s1, s2, find_row,
  insert_workflow, insert_mark, set_step1_done, set_completed, take_phase,
}
use sisu_kodo.Engine.View.{
  View, view, insert_view, mark_view, step1_view, completed_view, view-insert_workflow,
  view-insert_mark, view-set_step1_done, view-set_completed,
}

abbrev pub flag : (WorkflowRow → Bool) → View → Bool
flag f v = elim v.row [ none ↦ false | some r ↦ f r ]

abbrev pub step1 : View → Bool
step1 v = flag (λ r. r.step1_done) v

abbrev pub step2 : View → Bool
step2 v = flag (λ r. r.step2_done) v

abbrev pub completed : View → Bool
completed v = flag (λ r. r.completed) v

pub record Good (v : View) : Type 0 where
  pub once1 : v.marks1 ≤ 1
  pub once2 : v.marks2 ≤ 1
  pub marked1 : step1 v ≡ true → v.marks1 ≡ 1
  pub order : 0 < v.marks2 → step1 v ≡ true
  pub marked2 : completed v ≡ true → v.marks2 ≡ 1
  pub together : step2 v ≡ completed v

-- What a task relies on where it stands.
abbrev pub Fit : Pc → View → Type 0
Fit scheduled v = is_some v.row ≡ true
Fit slept v = step1 v ≡ true
Fit marked v = (step1 v ≡ true) × (v.marks2 ≡ 1)

-- A change that keeps what tasks rely on, and what holds of the rows under a condition.
pub record Kept (v w : View) : Type 0 where
  pub good : Good w
  pub row : is_some v.row ≡ true → is_some w.row ≡ true
  pub step : step1 v ≡ true → step1 w ≡ true
  pub second : v.marks2 ≡ 1 → w.marks2 ≡ 1

pub fit : {v w : View} → Kept v w → (pc : Pc) → Fit pc v → Fit pc w
fit kept scheduled h = kept.row h
fit kept slept h = kept.step h
fit kept marked (h, m) = (kept.step h, kept.second m)

Kept-insert : (k : String) (v : View) → Good v → Kept v (insert_view k v)
Kept-insert k v g = record {
  good = record {
    once1 = ground arith;
    once2 = ground arith;
    marked1 = ground arith;
    order = ground arith;
    marked2 = ground arith;
    together = ground arith;
  };
  row = ground arith;
  step = ground arith;
  second = ground arith;
}

Kept-mark1 : (v : View) → Good v → Kept v (mark_view s1 v)
Kept-mark1 v g = record {
  good = record {
    once1 = ground arith;
    once2 = ground arith;
    marked1 = ground arith;
    order = ground arith;
    marked2 = ground arith;
    together = ground arith;
  };
  row = ground arith;
  step = ground arith;
  second = ground arith;
}

Kept-step1 : (v : View) → Good v → v.marks1 ≡ 1 → Kept v (step1_view v)
Kept-step1 v g m = record {
  good = record {
    once1 = ground arith;
    once2 = ground arith;
    marked1 = ground arith;
    order = ground arith;
    marked2 = ground arith;
    together = ground arith;
  };
  row = ground arith;
  step = ground arith;
  second = ground arith;
}

Kept-mark2 : (v : View) → Good v → step1 v ≡ true → Kept v (mark_view s2 v)
Kept-mark2 v g m = record {
  good = record {
    once1 = ground arith;
    once2 = ground arith;
    marked1 = ground arith;
    order = ground arith;
    marked2 = ground arith;
    together = ground arith;
  };
  row = ground arith;
  step = ground arith;
  second = ground arith;
}

Kept-completed : (v : View) → Good v → v.marks2 ≡ 1 → Kept v (completed_view v)
Kept-completed v g m = record {
  good = record {
    once1 = ground arith;
    once2 = ground arith;
    marked1 = ground arith;
    order = ground arith;
    marked2 = ground arith;
    together = ground arith;
  };
  row = ground arith;
  step = ground arith;
  second = ground arith;
}

pub Kept-refl : (v : View) → Good v → Kept v v
Kept-refl v g = record { good = g; row = λ h. h; step = λ h. h; second = λ h. h }

abbrev pub AllGood : Tables → Type 0
AllGood db = (k : String) → Good (view db k)

abbrev pub AllKept : Tables → Tables → Type 0
AllKept db db' = (k : String) → Kept (view db k) (view db' k)

pub AllKept-trans : (x y z : Tables) → AllKept x y → AllKept y z → AllKept x z
AllKept-trans x y z p q k = record {
  good = (q k).good;
  row = λ h. (q k).row ((p k).row h);
  step = λ h. (q k).step ((p k).step h);
  second = λ h. (q k).second ((p k).second h);
}

-- A statement on one workflow leaves the others alone.
AllKept-at :
    (f : String → View → View) (db db' : Tables) (id : String)
    → ((k : String) → view db' k ≡ (if k === id then f k (view db k) else view db k))
    → AllGood db
    → Kept (view db id) (f id (view db id))
    → AllKept db db'
AllKept-at f db db' id e g kept k = elim (Bool-cases (k === id)) [
  | inl same ↦ rw (e k, same, (eq_iff k id).0 same) kept
  | inr other ↦ rw (e k, other) (Kept-refl (view db k) (g k))
]

pub insert_workflow-AllKept :
    (db : Tables) (id : String) → AllGood db → AllKept db (insert_workflow db id)
insert_workflow-AllKept db id g =
    AllKept-at insert_view db _ id (view-insert_workflow db id) g
      (Kept-insert id (view db id) (g id))

pub insert_mark2-AllKept :
    (db : Tables) (id : String)
    → AllGood db
    → step1 (view db id) ≡ true
    → AllKept db (insert_mark db id s2)
insert_mark2-AllKept db id g h =
    AllKept-at (λ k. mark_view s2) db _ id (view-insert_mark db id s2) g
      (Kept-mark2 (view db id) (g id) h)

pub insert_mark1-AllKept :
    (db : Tables) (id : String) → AllGood db → AllKept db (insert_mark db id s1)
insert_mark1-AllKept db id g =
    AllKept-at (λ k. mark_view s1) db _ id (view-insert_mark db id s1) g
      (Kept-mark1 (view db id) (g id))

pub set_step1_done-AllKept :
    (db : Tables) (id : String)
    → AllGood db
    → (view db id).marks1 ≡ 1
    → AllKept db (set_step1_done db id)
set_step1_done-AllKept db id g h =
    AllKept-at (λ k. step1_view) db _ id (view-set_step1_done db id) g
      (Kept-step1 (view db id) (g id) h)

pub set_completed-AllKept :
    (db : Tables) (id : String)
    → AllGood db
    → (view db id).marks2 ≡ 1
    → AllKept db (set_completed db id)
set_completed-AllKept db id g h =
    AllKept-at (λ k. completed_view) db _ id (view-set_completed db id) g
      (Kept-completed (view db id) (g id) h)

-- The transaction on a workflow whose step 1 is not done.
abbrev pub first_phase : Tables → String → Tables
first_phase db id = set_step1_done (insert_mark (insert_workflow db id) id s1) id

pub take_phase-first :
    (db : Tables) (id : String)
    → step1 (view db id) ≡ false
    → take_phase db id ≡ (sleep_then_step2, first_phase db id)
unfolding take_phase view
take_phase-first db id h = elim (Option-cases (find_row db id)) [
  | inl missing ↦ rw missing refl
  | inr (r, found) ↦ ground (arith, found)
]

pub take_phase-later :
    (db : Tables) (id : String)
    → step1 (view db id) ≡ true
    → take_phase db id ≡ ((if step2 (view db id) then done else sleep_then_step2), db)
unfolding take_phase view insert_workflow
take_phase-later db id h = elim (Option-cases (find_row db id)) [
  | inl missing ↦ ground (arith, missing)
  | inr (r, found) ↦ ground (arith, found)
]

pub marks1-insert_mark :
    (db : Tables) (id : String) → AllGood db → (view (insert_mark db id s1) id).marks1 ≡ 1
marks1-insert_mark db id g =
    rw (view-insert_mark db id s1 id, (eq_iff id id).1 refl) (ground (arith, (g id).once1))

pub marks2-insert_mark :
    (db : Tables) (id : String) → AllGood db → (view (insert_mark db id s2) id).marks2 ≡ 1
marks2-insert_mark db id g =
    rw (view-insert_mark db id s2 id, (eq_iff id id).1 refl) (ground (arith, (g id).once2))
