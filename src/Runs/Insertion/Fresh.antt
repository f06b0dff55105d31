-- ===== src/Runs/Insertion/Fresh.antt =====
-- A run that insertRun has inserted: src/db/runRepo.ts.
use sisu_kodo.Prelude.{
  ℕ, String, Option, none, some, Bool, true, false, List, [], ◌∷◌, ◌++◌, ◌≡◌, refl, arith, any,
  ◌===◌, eq_iff,
}
use sisu_kodo.Failure.{ok}
use sisu_kodo.Runs.{RunRow, find_run_by_id, find_run_by_workflow_id}
use sisu_kodo.Runs.Insertion.{
  NewRun, Inserted, new_row, insert_run, insert_unless, insert_fresh, answer,
  run_identity_drift_fields,
}

find-new_row :
    (now : ℕ) (rows : List RunRow) (run : NewRun)
    → any (λ (r : RunRow). r.id === run.id) rows ≡ false
    → find_run_by_id (rows ++ new_row now run ∷ []) run.id ≡ some (new_row now run)
unfolding find_run_by_id
find-new_row now [] run h = ground (arith, eq_iff run.id run.id)
find-new_row now (r ∷ rows) run h = ground (arith, h, find-new_row now rows run)

-- The row that was inserted is the request's, and the table finds it by its id.
pub insert_run_new :
    (now : ℕ) (rows : List RunRow) (run : NewRun) {row : Inserted}
    → (insert_run now rows run).0 ≡ ok row
    → row.inserted ≡ true
    → (row.run ≡ new_row now run)
      × (find_run_by_id (insert_run now rows run).1 run.id ≡ some (new_row now run))
unfolding insert_run insert_unless insert_fresh answer
insert_run_new now rows run {row} h new = go (find_run_by_workflow_id rows run.workflow_id) h
  where
    go :
        (found : Option RunRow)
        → (insert_unless found now rows run).0 ≡ ok row
        → (row.run ≡ new_row now run)
          × (find_run_by_id (insert_unless found now rows run).1 run.id ≡ some (new_row now run))
    go (some existing) e = absurd (known (run_identity_drift_fields existing run) e)
      where
        known : (fields : List String) → answer fields existing run ≡ ok row → ⊥
        known [] a = ground (arith, a, new)
        known (f ∷ fs) a = cc
    go none e = fresh (any (λ (r : RunRow). r.id === run.id) rows) refl e
      where
        fresh :
            (clash : Bool)
            → any (λ (r : RunRow). r.id === run.id) rows ≡ clash
            → (insert_fresh clash now rows run).0 ≡ ok row
            → (row.run ≡ new_row now run)
              × (find_run_by_id (insert_fresh clash now rows run).1 run.id ≡ some (new_row now run))
        fresh true c a = cc
        fresh false c a = (ground (arith, a), find-new_row now rows run c)
