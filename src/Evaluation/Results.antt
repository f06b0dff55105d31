-- ===== src/Evaluation/Results.antt =====
-- Results of checks on record: saveEvalResults of src/db/evalRepo.ts.
pub mod Again
use sisu_kodo.Prelude.{
  ℕ, String, Bool, true, false, not, ◌&&◌, ◌||◌, Option, none, some, List, [], ◌∷◌, ◌++◌, ◌===◌,
  find, filter, ◌<>◌, if◌then◌else◌, ◌or_default◌,
}
use sisu_kodo.Prelude.Json.{Json, null}
use sisu_kodo.Prelude.Sorting.{sort_by}
use sisu_kodo.Failure.{plain, Result, ok, err}
use sisu_kodo.Failure.Async.{Async}
use sisu_kodo.Failure.Repeated.{do_each}
use sisu_kodo.Hash.{Platform, canonicalize}
use sisu_kodo.Evaluation.Checks.{EvalCheckResult}

pub record EvalResultRow : Type 0 where
  pub run_id : String
  pub check_id : String
  pub pass : Bool
  pub reason : String
  pub payload : Json
  pub created_at : ℕ

-- `result.payload ?? null`
abbrev pub payload_of : EvalCheckResult → Json
payload_of r = r.payload or_default null

abbrev pub same_bool : Bool → Bool → Bool
same_bool true b = b
same_bool false b = not b

abbrev pub is_result : String → String → EvalResultRow → Bool
is_result run_id id r = r.run_id === run_id && r.check_id === id

unfoldable pub find_result : List EvalResultRow → String → String → Option EvalResultRow
find_result rows run_id id = find (is_result run_id id) rows

module _ (p : Platform) (now : ℕ) (run_id : String) where
  abbrev pub agrees : EvalResultRow → EvalCheckResult → Bool
  agrees row r =
      (same_bool row.pass r.pass && row.reason === r.reason)
      && canonicalize p row.payload === canonicalize p (payload_of r)

  abbrev pub row_of : EvalCheckResult → EvalResultRow
  row_of r = record {
    run_id = run_id;
    check_id = r.check_id;
    pass = r.pass;
    reason = r.reason;
    payload = payload_of r;
    created_at = now;
  }

  -- ON CONFLICT (run_id, check_id) DO NOTHING, and the comparison with what is there.
  abbrev pub settle_result :
      EvalCheckResult → Option EvalResultRow → Async (List EvalResultRow) (Unit {0})
  settle_result r none rows = (ok tt, rows ++ row_of r ∷ [])
  settle_result r (some row) rows =
      if agrees row r
      then (ok tt, rows)
      else (err (plain ("eval divergence: " <> (run_id <> (":" <> r.check_id)))), rows)

  unfoldable pub save_result : EvalCheckResult → Async (List EvalResultRow) (Unit {0})
  save_result r rows = settle_result r (find_result rows run_id r.check_id) rows

  unfoldable pub save_each : List EvalCheckResult → Async (List EvalResultRow) (Unit {0})
  save_each = do_each save_result

  unfoldable pub save_eval_results : List EvalCheckResult → Async (List EvalResultRow) (Unit {0})
  save_eval_results results =
      save_each (sort_by (λ (a b : EvalCheckResult). p.locale_le a.check_id b.check_id) results)

-- `ORDER BY check_id ASC`, in the database's collation.
unfoldable pub list_eval_results :
    (String → String → Bool) → List EvalResultRow → String → List EvalResultRow
list_eval_results collates rows run_id =
    sort_by (λ (a b : EvalResultRow). collates a.check_id b.check_id)
      (filter (λ (r : EvalResultRow). r.run_id === run_id) rows)
