-- ===== src/Execution/Receipts/Second.antt =====
-- A second receipt for a decision: saveExecuteStep of src/workflow/steps/run-intent.steps.ts.
use sisu_kodo.Prelude.{
  ℕ, ◌≤◌, String, true, Option, none, some, List, [], ◌∷◌, ◌++◌, ◌≡◌, refl, arith, find,
  update_where, ltb, eq_iff,
}
use sisu_kodo.Prelude.Json.{Json, Fields}
use sisu_kodo.Failure.{Result, ok, err}
use sisu_kodo.Failure.Async.{continue, lift, ◌>>=◌, ◌>>◌}
use sisu_kodo.Hash.{Platform}
use sisu_kodo.Sandbox.{SbxRes, is_none}
use sisu_kodo.Runs.Steps.{StepOutput, StepRecord}
use sisu_kodo.Execution.Receipts.{
  MockReceiptRow, Ledger, is_receipt, seen_again, upsert_found, upsert_mock_receipt, receipt_row,
  build_receipt_key, duplicate_receipt, persist_execute_receipt, add_run_step, store_execution,
  execution_record, final_attempt, save_execute_step,
}

-- The receipt of a key is on record, and was seen.
abbrev Seen : String → List MockReceiptRow → Type 0
Seen key rows = (r : MockReceiptRow) × (find (is_receipt key) rows ≡ some r) × (1 ≤ r.seen_count)

find_appended :
    (rows : List MockReceiptRow) (row : MockReceiptRow)
    → find (is_receipt row.receipt_key) rows ≡ none
    → find (is_receipt row.receipt_key) (rows ++ row ∷ []) ≡ some row
find_appended [] row h = ground (arith, eq_iff row.receipt_key row.receipt_key)
find_appended (x ∷ rows) row h = ground (arith, h, find_appended rows row)

find_seen :
    (rows : List MockReceiptRow) (key : String) (attempt : ℕ) (r : MockReceiptRow)
    → find (is_receipt key) rows ≡ some r
    → find (is_receipt key) (update_where (is_receipt key) (seen_again attempt) rows)
      ≡ some (seen_again attempt r)
find_seen [] key attempt r h = cc
find_seen (x ∷ rows) key attempt r h = ground (arith, h, find_seen rows key attempt r)

upsert-Seen :
    (rows : List MockReceiptRow) (row : MockReceiptRow)
    → Seen row.receipt_key (upsert_mock_receipt rows row).1
unfolding upsert_mock_receipt
upsert-Seen rows row = go (find (is_receipt row.receipt_key) rows) refl
  where
    go :
        (found : Option MockReceiptRow)
        → find (is_receipt row.receipt_key) rows ≡ found
        → Seen row.receipt_key (upsert_found found rows row).1
    go none f = (
      record row { seen_count = 1 },
      find_appended rows (record row { seen_count = 1 }) f,
      omega arith,
    )
    go (some r) f = (
      seen_again row.last_attempt r,
      find_seen rows row.receipt_key row.last_attempt r f,
      omega arith,
    )

upsert_of_Seen :
    (rows : List MockReceiptRow) (row : MockReceiptRow)
    → Seen row.receipt_key rows
    → ltb 1 (upsert_mock_receipt rows row).0 ≡ true
unfolding upsert_mock_receipt
upsert_of_Seen rows row (r, f, seen) = rw f (ground (arith, seen))

module _ (p : Platform) (canonical : StepOutput → String) (run_id : String) (decision : Json) where
  abbrev key : String
  key = build_receipt_key p canonical run_id "ExecuteST" decision

  store-Seen :
      (result : SbxRes) (step : StepRecord) (attempt : ℕ) (w : Ledger)
      → Seen key (store_execution p canonical run_id result decision step attempt w).1.receipts
  unfolding store_execution persist_execute_receipt add_run_step ◌>>=◌ ◌>>◌
  store-Seen result step attempt w =
      go (persist_execute_receipt p canonical run_id attempt decision result w).0
    where
      after : Ledger
      after = (persist_execute_receipt p canonical run_id attempt decision result w).1

      go :
          (x : Result (Unit {0}))
          → Seen key (continue x (λ _. add_run_step p canonical run_id step) after).1.receipts
      go (ok _) = upsert-Seen w.receipts (receipt_row p canonical run_id attempt decision)
      go (err e) = upsert-Seen w.receipts (receipt_row p canonical run_id attempt decision)

  store_refused :
      (result : SbxRes) (step : StepRecord) (attempt : ℕ) (w : Ledger)
      → Seen key w.receipts
      → is_none result.err_code ≡ true
      → ((store_execution p canonical run_id result decision step attempt w).0
          ≡ err (duplicate_receipt run_id))
        × ((store_execution p canonical run_id result decision step attempt w).1.run_steps
            ≡ w.run_steps)
  unfolding store_execution persist_execute_receipt ◌>>=◌ ◌>>◌
  store_refused result step attempt w seen fine =
      let again =
        upsert_of_Seen w.receipts (receipt_row p canonical run_id attempt decision) seen in
      (rw (again, fine) refl, rw (again, fine) refl)

  module _ (assert_step_output : Fields → Result (Unit {0})) (start finish : ℕ) where
    abbrev pub saving : SbxRes → Fields → Option ℕ → Option ℕ → Ledger → Result (Unit {0}) × Ledger
    saving result members own given w =
        save_execute_step p canonical assert_step_output start finish run_id result members own
          decision given w

    saved-Seen :
        (result : SbxRes) (members : Fields) (own given : Option ℕ) (w : Ledger)
        → (saving result members own given w).0 ≡ ok tt
        → Seen key (saving result members own given w).1.receipts
    unfolding save_execute_step lift ◌>>=◌ ◌>>◌
    saved-Seen result members own given w h = go (assert_step_output members) h
      where
        store : Ledger → Result (Unit {0}) × Ledger
        store =
            let attempt = final_attempt p canonical own given run_id w in
            store_execution p canonical run_id result decision
              (execution_record p canonical start finish members attempt) attempt

        go :
            (x : Result (Unit {0}))
            → (continue x (λ _. store) w).0 ≡ ok tt
            → Seen key (continue x (λ _. store) w).1.receipts
        go (ok _) k = store-Seen result _ _ w
        go (err e) k = cc

    -- After a save that returned, the save of a successful result for the same run and decision throws
    -- and records no step, whatever the first result was, also a failed one.
    pub save_execute_step-second :
        (first second : SbxRes) (members members' : Fields) (own given own' given' : Option ℕ)
        (w : Ledger)
        → (saving first members own given w).0 ≡ ok tt
        → assert_step_output members' ≡ ok tt
        → is_none second.err_code ≡ true
        → ((saving second members' own' given' (saving first members own given w).1).0
            ≡ err (duplicate_receipt run_id))
          × ((saving second members' own' given' (saving first members own given w).1).1.run_steps
              ≡ (saving first members own given w).1.run_steps)
    save_execute_step-second first second members members' own given own' given' w h valid fine =
        after (saving first members own given w).1 (saved-Seen first members own given w h)
      where
        after :
            (w' : Ledger)
            → Seen key w'.receipts
            → ((saving second members' own' given' w').0 ≡ err (duplicate_receipt run_id))
              × ((saving second members' own' given' w').1.run_steps ≡ w'.run_steps)
        after w' seen =
            unfold save_execute_step lift ◌>>=◌ ◌>>◌ in
            (rw valid (store_refused second _ _ w' seen fine))
