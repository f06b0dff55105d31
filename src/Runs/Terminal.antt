-- ===== src/Runs/Terminal.antt =====
-- A finished run stays finished: the guards of updateRunStatus and updateRunOps (src/db/runRepo.ts).
use sisu_kodo.Prelude.{
  ℕ, String, Option, none, some, true, List, [], ◌∷◌, ◌≡◌, refl, arith, All, is_some, ◌===◌,
  update_where, eq_iff, if◌then◌else◌, Bool-cases, inl, inr, ap, ◌∙◌,
}
use mathlib.Core.Option
use sisu_kodo.Runs.{
  RunStatus, repairing, RunRow, RunOps, is_terminal, set_status, set_ops, update_run_status,
  update_run_ops, find_run_by_id, ops_status_case,
}

-- The statements that change the status of a run.
pub data RunUpdate : Type 0 where
  status : ℕ → RunStatus → RunUpdate
  ops : ℕ → RunOps → RunUpdate

abbrev pub apply : String → List RunRow → RunUpdate → List RunRow
apply id rows (status now s) = update_run_status now rows id s
apply id rows (ops now o) = update_run_ops now rows id o

unfoldable pub apply_all : String → List RunRow → List RunUpdate → List RunRow
apply_all id rows [] = rows
apply_all id rows (u ∷ us) = apply_all id (apply id rows u) us

-- An update that counts a retry and asks for `repairing`.
abbrev pub IsReentry : RunUpdate → Type 0
IsReentry (status now s) = ⊥
IsReentry (ops now o) = (o.status ≡ some repairing) × (is_some o.retry_count ≡ true)

find-update_where :
    (f : RunRow → RunRow) (same_id : (r : RunRow) → (f r).id ≡ r.id) (rows : List RunRow)
    (id k : String)
    → find_run_by_id (update_where (λ (r : RunRow). r.id === id) f rows) k
      ≡ (if k === id then Option.map f (find_run_by_id rows k) else find_run_by_id rows k)
unfolding find_run_by_id
find-update_where f same_id [] id k = ground arith
find-update_where f same_id (r ∷ rows) id k = ground (
  arith,
  find-update_where f same_id rows id k,
  same_id r,
  eq_iff k id,
  eq_iff r.id id,
  eq_iff r.id k,
)

set_status_id : (now : ℕ) (s : RunStatus) (r : RunRow) → (set_status now s r).id ≡ r.id
unfolding set_status
set_status_id now s r = refl

set_ops_id : (now : ℕ) (o : RunOps) (r : RunRow) → (set_ops now o r).id ≡ r.id
unfolding set_ops
set_ops_id now o r = refl

-- An update by id changes that run's row as its statement says and leaves every other run alone.
pub find-apply :
    (id k : String) (rows : List RunRow) (u : RunUpdate)
    → find_run_by_id (apply id rows u) k ≡ (
        if k === id
        then Option.map
            (elim u [ status now s ↦ set_status now s | ops now o ↦ set_ops now o ])
            (find_run_by_id rows k)
        else find_run_by_id rows k)
unfolding update_run_status update_run_ops
find-apply id k rows (status now s) =
    find-update_where (set_status now s) (set_status_id now s) rows id k
find-apply id k rows (ops now o) = find-update_where (set_ops now o) (set_ops_id now o) rows id k

change : RunUpdate → RunRow → RunRow
change (status now s) = set_status now s
change (ops now o) = set_ops now o

ops_status_case_terminal :
    (o : RunOps) (current next : RunStatus)
    → is_terminal current ≡ true
    → (next ≡ repairing → is_some o.retry_count ≡ true → ⊥)
    → is_terminal (ops_status_case o current next) ≡ true
unfolding ops_status_case
ops_status_case_terminal o current repairing t n = elim (Bool-cases (is_some o.retry_count)) [
  | inl counted ↦ absurd (n refl counted)
  | inr uncounted ↦ rw (uncounted, t) t
]
ops_status_case_terminal o current _ t n = ground arith

change_terminal :
    (u : RunUpdate) (r : RunRow)
    → is_terminal r.status ≡ true
    → ¬ IsReentry u
    → is_terminal (change u r).status ≡ true
unfolding change set_status set_ops
change_terminal (status now s) r t n = ground arith
change_terminal (ops now o) r t n = go o.status refl
  where
    go :
        (s : Option RunStatus)
        → o.status ≡ s
        → is_terminal (elim s as (λ _. RunStatus) [
          | none ↦ r.status
          | some next ↦ ops_status_case o r.status next
        ])
          ≡ true
    go none e = t
    go (some next) e = ops_status_case_terminal o r.status next t (λ q c. n (e ∙ ap some q, c))

find-apply_self :
    (id : String) (rows : List RunRow) (u : RunUpdate) {r : RunRow}
    → find_run_by_id rows id ≡ some r
    → find_run_by_id (apply id rows u) id ≡ some (change u r)
unfolding change
find-apply_self id rows (status now s) h =
    ground (arith, find-apply id id rows (status now s), eq_iff id id)
find-apply_self id rows (ops now o) h =
    ground (arith, find-apply id id rows (ops now o), eq_iff id id)

-- A finished run stays finished under any sequence of status and ops updates in which no counted
-- repair reenters it.
pub apply_all_terminal :
    (id : String) (rows : List RunRow) (us : List RunUpdate) {r : RunRow}
    → find_run_by_id rows id ≡ some r
    → is_terminal r.status ≡ true
    → All (λ u. ¬ IsReentry u) us
    → (r' : RunRow) × (find_run_by_id (apply_all id rows us) id ≡ some r')
      × (is_terminal r'.status ≡ true)
unfolding apply_all
apply_all_terminal id rows [] {r} h t n = (r, h, t)
apply_all_terminal id rows (u ∷ us) {r} h t (n, ns) =
    apply_all_terminal id (apply id rows u) us (find-apply_self id rows u h)
      (change_terminal u r t n) ns
