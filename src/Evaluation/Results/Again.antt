-- ===== src/Evaluation/Results/Again.antt =====
-- Saving results a second time: saveEvalResults of src/db/evalRepo.ts.
use sisu_kodo.Prelude.{
  ℕ, String, true, Option, none, some, List, [], ◌∷◌, ◌++◌, ◌≡◌, refl, arith, eq_iff, Bool-cases,
  inl, inr,
}
use sisu_kodo.Prelude.Sorting.{sort_by}
use sisu_kodo.Failure.{Result, ok}
use sisu_kodo.Failure.Repeated.{do_each-All, do_each-done}
use sisu_kodo.Hash.{Platform, canonicalize}
use sisu_kodo.Evaluation.Checks.{EvalCheckResult}
use sisu_kodo.Evaluation.Results.{
  EvalResultRow, find_result, agrees, row_of, payload_of, settle_result, save_result, save_each,
  save_eval_results,
}

module _ (p : Platform) (now : ℕ) (run_id : String) where
  -- The result is on record as it is.
  abbrev pub Recorded : List EvalResultRow → EvalCheckResult → Type 0
  Recorded rows r =
      (row : EvalResultRow) × (find_result rows run_id r.check_id ≡ some row)
      × (agrees p now run_id row r ≡ true)

  find_appended :
      (rows : List EvalResultRow) (new row : EvalResultRow) (id : String)
      → find_result rows run_id id ≡ some row
      → find_result (rows ++ new ∷ []) run_id id ≡ some row
  unfolding find_result
  find_appended [] new row id h = cc
  find_appended (r ∷ rows) new row id h = ground (arith, h, find_appended rows new row id)

  find_new :
      (rows : List EvalResultRow) (r : EvalCheckResult)
      → find_result rows run_id r.check_id ≡ none
      → find_result (rows ++ row_of p now run_id r ∷ []) run_id r.check_id
        ≡ some (row_of p now run_id r)
  unfolding find_result
  find_new [] r h = ground (arith, eq_iff run_id run_id, eq_iff r.check_id r.check_id)
  find_new (x ∷ rows) r h = ground (arith, h, find_new rows r)

  agrees_itself : (r : EvalCheckResult) → agrees p now run_id (row_of p now run_id r) r ≡ true
  agrees_itself r = ground (
    arith,
    eq_iff r.reason r.reason,
    eq_iff (canonicalize p (payload_of r)) (canonicalize p (payload_of r)),
  )

  -- A result that was saved is on record, and so is all that was on record before.
  pub save_result-Recorded :
      (r : EvalCheckResult) (rows : List EvalResultRow)
      → (save_result p now run_id r rows).0 ≡ ok tt
      → Recorded (save_result p now run_id r rows).1 r
  unfolding save_result
  save_result-Recorded r rows h = go (find_result rows run_id r.check_id) refl h
    where
      settled : Option EvalResultRow → Result (Unit {0}) × List EvalResultRow
      settled found = settle_result p now run_id r found rows

      go :
          (found : Option EvalResultRow)
          → find_result rows run_id r.check_id ≡ found
          → (settled found).0 ≡ ok tt
          → Recorded (settled found).1 r
      go none f e = (row_of p now run_id r, find_new rows r f, agrees_itself r)
      go (some row) f e = elim (Bool-cases (agrees p now run_id row r)) [
        | inl same ↦ rw same (row, f, same)
        | inr other ↦ absurd (ground (arith, e, other))
      ]

  pub save_result-keeps :
      (r s : EvalCheckResult) (rows : List EvalResultRow)
      → Recorded rows s
      → Recorded (save_result p now run_id r rows).1 s
  unfolding save_result
  save_result-keeps r s rows (row, f, a) = go (find_result rows run_id r.check_id)
    where
      go : (found : Option EvalResultRow) → Recorded (settle_result p now run_id r found rows).1 s
      go none = (row, find_appended rows _ row s.check_id f, a)
      go (some other) = elim (Bool-cases (agrees p now run_id other r)) [
        | inl same ↦ rw same (row, f, a)
        | inr differs ↦ rw differs (row, f, a)
      ]

  save_result-again :
      (r : EvalCheckResult) (rows : List EvalResultRow)
      → Recorded rows r
      → save_result p now run_id r rows ≡ (ok tt, rows)
  unfolding save_result
  save_result-again r rows (row, f, a) = rw (f, a) refl

-- Saving results again, after a save that returned, returns and changes nothing, at any later time.
pub save_eval_results-again :
    (p : Platform) (now later : ℕ) (run_id : String) (results : List EvalCheckResult)
    (rows : List EvalResultRow)
    → (save_eval_results p now run_id results rows).0 ≡ ok tt
    → save_eval_results p later run_id results (save_eval_results p now run_id results rows).1
      ≡ (ok tt, (save_eval_results p now run_id results rows).1)
unfolding save_eval_results save_each
save_eval_results-again p now later run_id results rows h =
    do_each-done (save_result p later run_id) (Recorded p later run_id)
      (save_result-again p later run_id) (sort_by _ results) _
      (do_each-All (save_result p now run_id) (Recorded p now run_id)
        (save_result-Recorded p now run_id) (save_result-keeps p now run_id) (sort_by _ results)
        rows h)
