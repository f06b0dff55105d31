-- ===== src/Runs/Insertion/Again.antt =====
-- A second request for a workflow: insertRun of src/db/runRepo.ts.
use sisu_kodo.Prelude.{
  ℕ, String, Option, none, some, Bool, true, false, List, [], ◌∷◌, ◌++◌, ◌≡◌, refl, arith, any,
  ◌===◌, eq_iff, ◌∙◌,
}
use sisu_kodo.Failure.{ok, err}
use sisu_kodo.Runs.{RunRow, find_run_by_workflow_id}
use sisu_kodo.Runs.Insertion.{
  NewRun, Inserted, new_row, insert_run, drift_error, run_identity_drift_fields, answer,
  insert_fresh, insert_unless,
}
use sisu_kodo.Runs.Insertion.Drift.{
  SameIdentity, run_identity_drift_iff, Failing, agreements, run_identity_drift_fields-Failing,
}

find-concat :
    (rows : List RunRow) (r : RunRow)
    → find_run_by_workflow_id rows r.workflow_id ≡ none
    → find_run_by_workflow_id (rows ++ r ∷ []) r.workflow_id ≡ some r
unfolding find_run_by_workflow_id
find-concat [] r h = ground (arith, eq_iff r.workflow_id r.workflow_id)
find-concat (x ∷ rows) r h = ground (arith, find-concat rows r)

new_row-SameIdentity : (now : ℕ) (run : NewRun) → SameIdentity (new_row now run) run
new_row-SameIdentity now run = record {
  id = refl;
  intent_id = refl;
  intent_hash = refl;
  recipe_id = refl;
  recipe_v = refl;
  recipe_hash = refl;
  trace_id = refl;
  tenant_id = refl;
  queue_partition_key = refl;
  budget = refl;
}

insert_run_of_found :
    (now : ℕ) (rows : List RunRow) (run : NewRun) (existing : RunRow)
    → find_run_by_workflow_id rows run.workflow_id ≡ some existing
    → run_identity_drift_fields existing run ≡ []
    → insert_run now rows run ≡ (ok (record { run = existing; inserted = false }), rows)
unfolding insert_run
insert_run_of_found now rows run existing f s = rw (f, insert_unless) (rw (s, answer))

insert_again :
    (now later : ℕ) (rows : List RunRow) (run : NewRun) (found : Option RunRow) {first : Inserted}
    → find_run_by_workflow_id rows run.workflow_id ≡ found
    → (insert_unless found now rows run).0 ≡ ok first
    → let rows' = (insert_unless found now rows run).1 in
      insert_run later rows' run ≡ (ok (record { run = first.run; inserted = false }), rows')
unfolding insert_unless
insert_again now later rows run (some existing) {first} f h =
    no_drift (run_identity_drift_fields existing run) refl h
  where
    no_drift :
        (fields : List String)
        → run_identity_drift_fields existing run ≡ fields
        → answer fields existing run ≡ ok first
        → insert_run later rows run ≡ (ok (record { run = first.run; inserted = false }), rows)
    no_drift [] e a = insert_run_of_found later rows run existing f e ∙ ground arith
    no_drift (field ∷ fields) e a = cc
insert_again now later rows run none {first} f h =
    fresh (any (λ (r : RunRow). r.id === run.id) rows) h
  where
    fresh :
        (clash : Bool)
        → (insert_fresh clash now rows run).0 ≡ ok first
        → let rows' = (insert_fresh clash now rows run).1 in
          insert_run later rows' run ≡ (ok (record { run = first.run; inserted = false }), rows')
    fresh true a = cc
    fresh false a =
        insert_run_of_found later _ run (new_row now run) (find-concat rows (new_row now run) f)
          ((run_identity_drift_iff (new_row now run) run).1 (new_row-SameIdentity now run))
        ∙ ground arith

-- After a run was inserted or replayed, the same request again is a replay: it returns the same row,
-- inserts nothing and changes no row, whatever the clock says.
pub insert_run_idempotent :
    (now later : ℕ) (rows : List RunRow) (run : NewRun) {first : Inserted}
    → (insert_run now rows run).0 ≡ ok first
    → let rows' = (insert_run now rows run).1 in
      insert_run later rows' run ≡ (ok (record { run = first.run; inserted = false }), rows')
unfolding insert_run
insert_run_idempotent now later rows run h =
    insert_again now later rows run (find_run_by_workflow_id rows run.workflow_id) refl h

-- A request whose identity drifted from the run of its workflow is refused with the names of exactly
-- those columns in which the two differ, in their order, and the table stays as it was.
pub insert_run_drift :
    (now : ℕ) (rows : List RunRow) (run : NewRun) (existing : RunRow)
    → find_run_by_workflow_id rows run.workflow_id ≡ some existing
    → ¬ SameIdentity existing run
    → (fields : List String) × (insert_run now rows run
        ≡ (err (drift_error run.workflow_id fields), rows))
      × Failing (agreements existing run) fields
unfolding insert_run
insert_run_drift now rows run existing f n =
    (drift, refused drift refl, run_identity_drift_fields-Failing existing run)
  where
    drift : List String
    drift = run_identity_drift_fields existing run

    refused :
        (fields : List String)
        → drift ≡ fields
        → insert_run now rows run ≡ (err (drift_error run.workflow_id drift), rows)
    refused [] e = absurd (n ((run_identity_drift_iff existing run).0 e))
    refused (field ∷ fields) e = rw (f, insert_unless) (rw (e, answer))
