-- ===== src/Engine/View.antt =====
-- What the tables hold of one workflow, and each statement as a change of that:
-- src/workflow/engine-custom.ts.
use sisu_kodo.Prelude.{
  ℕ, max, ltb, String, Bool, Option, some, List, [], ◌∷◌, ◌===◌, ◌&&◌, any, count, if◌then◌else◌,
  ◌or_default◌, ◌≡◌, refl, arith, eq_iff, find-update_where, Option-cases, inl, inr,
}
use mathlib.Core.Option
use sisu_kodo.Engine.{
  MarkStep, s1, s2, WorkflowRow, Tables, new_row, find_row, is_mark, same_step, insert_workflow,
  insert_mark, set_step1_done, set_completed, mark_count, step1_row, completed_row,
}

pub record View : Type 0 where
  pub row : Option WorkflowRow
  pub marks1 : ℕ
  pub marks2 : ℕ

unfoldable pub view : Tables → String → View
unfolding mark_count
view db id = record {
  row = find_row db id;
  marks1 = mark_count db id s1;
  marks2 = mark_count db id s2;
}

abbrev pub insert_view : String → View → View
insert_view id v = record v { row = some (v.row or_default new_row id) }

abbrev pub mark_view : MarkStep → View → View
mark_view s1 v = record v { marks1 = max 1 v.marks1 }
mark_view s2 v = record v { marks2 = max 1 v.marks2 }

abbrev pub step1_view : View → View
step1_view v = record v { row = Option.map step1_row v.row }

abbrev pub completed_view : View → View
completed_view v = record v { row = Option.map completed_row v.row }

any-count : {A : Type 0} (p : A → Bool) (xs : List A) → any p xs ≡ ltb 0 (count p xs)
any-count p [] = refl
any-count p (x ∷ xs) = ground (arith, any-count p xs)

find-insert_workflow :
    (db : Tables) (id k : String)
    → find_row (insert_workflow db id) k
      ≡ (if k === id then some (find_row db id or_default new_row id) else find_row db k)
unfolding insert_workflow
find-insert_workflow db id k = elim (Option-cases (find_row db id)) [
  | inl none_yet ↦ ground (arith, none_yet, eq_iff k id, eq_iff id k)
  | inr (r, found) ↦ ground (arith, found, eq_iff k id)
]

count-insert_mark :
    (db : Tables) (id : String) (st : MarkStep) (k : String) (st' : MarkStep)
    → mark_count (insert_mark db id st) k st'
      ≡ (if k === id && same_step st st' then max 1 (mark_count db k st') else mark_count db k st')
unfolding insert_mark mark_count
count-insert_mark db id s1 k s1 =
    ground (arith, any-count (is_mark id s1) db.marks, eq_iff k id, eq_iff id k)
count-insert_mark db id s1 k s2 =
    ground (arith, any-count (is_mark id s1) db.marks, eq_iff k id, eq_iff id k)
count-insert_mark db id s2 k s1 =
    ground (arith, any-count (is_mark id s2) db.marks, eq_iff k id, eq_iff id k)
count-insert_mark db id s2 k s2 =
    ground (arith, any-count (is_mark id s2) db.marks, eq_iff k id, eq_iff id k)

marks-insert_workflow : (db : Tables) (id : String) → (insert_workflow db id).marks ≡ db.marks
unfolding insert_workflow
marks-insert_workflow db id = ground arith

rows-insert_mark :
    (db : Tables) (id : String) (st : MarkStep)
    → (insert_mark db id st).workflow_runs ≡ db.workflow_runs
unfolding insert_mark
rows-insert_mark db id st = ground arith

pub view-insert_workflow :
    (db : Tables) (id k : String)
    → view (insert_workflow db id) k ≡ (if k === id then insert_view k (view db k) else view db k)
unfolding view mark_count
view-insert_workflow db id k =
    ground (arith, find-insert_workflow db id k, marks-insert_workflow db id, eq_iff k id)

pub view-insert_mark :
    (db : Tables) (id : String) (st : MarkStep) (k : String)
    → view (insert_mark db id st) k ≡ (if k === id then mark_view st (view db k) else view db k)
unfolding view
view-insert_mark db id s1 k = ground (
  arith,
  count-insert_mark db id s1 k s1,
  count-insert_mark db id s1 k s2,
  rows-insert_mark db id s1,
  eq_iff k id,
)
view-insert_mark db id s2 k = ground (
  arith,
  count-insert_mark db id s2 k s1,
  count-insert_mark db id s2 k s2,
  rows-insert_mark db id s2,
  eq_iff k id,
)

pub view-set_step1_done :
    (db : Tables) (id k : String)
    → view (set_step1_done db id) k ≡ (if k === id then step1_view (view db k) else view db k)
unfolding view set_step1_done mark_count
view-set_step1_done db id k =
    ground
      (arith, find-update_where WorkflowRow.workflow_id step1_row (λ r. refl) db.workflow_runs id k)

pub view-set_completed :
    (db : Tables) (id k : String)
    → view (set_completed db id) k ≡ (if k === id then completed_view (view db k) else view db k)
unfolding view set_completed mark_count
view-set_completed db id k = ground (
  arith,
  find-update_where WorkflowRow.workflow_id completed_row (λ r. refl) db.workflow_runs id k,
)
