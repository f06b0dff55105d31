-- ===== src/Execution/Receipts.antt =====
-- Receipts of executed plans: upsertMockReceipt of src/db/mockReceiptRepo.ts, the keys of
-- src/workflow/steps/step-counter.ts, and persistExecuteReceipt and saveExecuteStep of
-- src/workflow/steps/run-intent.steps.ts. Columns that are only stored are left out.
pub mod Second
use sisu_kodo.Prelude.{
  ℕ, suc, max, ◌+◌, ◌≤◌, String, Bool, true, false, not, ◌&&◌, Option, none, some, List, [], ◌∷◌,
  ◌++◌, ◌===◌, ◌≡◌, refl, ◌∙◌, arith, find, any, update_where, ltb, ◌<>◌, if◌then◌else◌,
  ◌or_default◌, ◌or_else◌, eq_iff,
}
use mathlib.Core.Option
use sisu_kodo.Prelude.Json.{Json, obj, Fields}
use sisu_kodo.Failure.{Error, plain, Result, ok, err}
use sisu_kodo.Failure.Async.{Async, pure, throw, lift, ◌>>=◌, ◌>>◌}
use sisu_kodo.Hash.{Platform, canonicalize}
use sisu_kodo.Sandbox.{SbxRes, is_none}
use sisu_kodo.Runs.Steps.{
  RunStepRow, StepOutput, StepRecord, with_step_attempt, next_step_attempt, insert_run_step,
}

pub record MockReceiptRow : Type 0 where
  pub receipt_key : String
  pub payload_hash : String
  pub first_attempt : ℕ
  pub last_attempt : ℕ
  pub seen_count : ℕ

abbrev pub is_receipt : String → MockReceiptRow → Bool
is_receipt key r = r.receipt_key === key

abbrev pub seen_again : ℕ → MockReceiptRow → MockReceiptRow
seen_again attempt r = record r {
  seen_count = suc r.seen_count;
  last_attempt = max r.last_attempt attempt;
}

-- ON CONFLICT (receipt_key) DO UPDATE … RETURNING seen_count
abbrev pub upsert_found :
    Option MockReceiptRow → List MockReceiptRow → MockReceiptRow → ℕ × List MockReceiptRow
upsert_found none rows row = (1, rows ++ record row { seen_count = 1 } ∷ [])
upsert_found (some found) rows row = (
  suc found.seen_count,
  update_where (is_receipt row.receipt_key) (seen_again row.last_attempt) rows,
)

unfoldable pub upsert_mock_receipt : List MockReceiptRow → MockReceiptRow → ℕ × List MockReceiptRow
upsert_mock_receipt rows row = upsert_found (find (is_receipt row.receipt_key) rows) rows row

pub record Ledger : Type 0 where
  pub receipts : List MockReceiptRow
  pub run_steps : List RunStepRow

abbrev pub duplicate_receipt : String → Error
duplicate_receipt run_id =
    plain ("duplicate side effect receipt detected for run " <> (run_id <> " step ExecuteST"))

module _ (p : Platform) (canonical : StepOutput → String) where
  abbrev pub payload_hash : Json → String
  payload_hash payload = p.sha256_hex (canonicalize p payload)

  unfoldable pub build_receipt_key : String → String → Json → String
  build_receipt_key run_id step_id payload =
      p.sha256_hex (run_id <> (":" <> (step_id <> (":" <> payload_hash payload))))

  abbrev pub receipt_row : String → ℕ → Json → MockReceiptRow
  receipt_row run_id attempt decision = record {
    receipt_key = build_receipt_key run_id "ExecuteST" decision;
    payload_hash = payload_hash decision;
    first_attempt = attempt;
    last_attempt = attempt;
    seen_count = 1;
  }

  unfoldable pub persist_execute_receipt : String → ℕ → Json → SbxRes → Async Ledger (Unit {0})
  unfolding upsert_mock_receipt
  persist_execute_receipt run_id attempt decision result w =
      let stored = upsert_mock_receipt w.receipts (receipt_row run_id attempt decision) in
      (
        if ltb 1 stored.0 && is_none result.err_code then err (duplicate_receipt run_id) else ok tt,
        record w { receipts = stored.1 },
      )

  unfoldable pub add_run_step : String → StepRecord → Async Ledger (Unit {0})
  add_run_step run_id step w =
      let stored : Result (Unit {0}) × List RunStepRow =
        insert_run_step canonical w.run_steps run_id step in
      (stored.0, record w { run_steps = stored.1 })

  abbrev pub execution_record : ℕ → ℕ → Fields → ℕ → StepRecord
  execution_record start finish members attempt = record {
    step_id = "ExecuteST";
    phase = "execution";
    output = some (with_step_attempt members attempt);
    started_at = start;
    finished_at = finish;
  }

  unfoldable pub store_execution : String → SbxRes → Json → StepRecord → ℕ → Async Ledger (Unit {0})
  store_execution run_id result decision step attempt =
      persist_execute_receipt run_id attempt decision result >> add_run_step run_id step

  -- The attempt in the result, else the one given, else the next one.
  abbrev pub final_attempt : Option ℕ → Option ℕ → String → Ledger → ℕ
  final_attempt own given run_id w =
      (own or_else given) or_default next_step_attempt w.run_steps run_id "ExecuteST"

  -- `members` are those of the result and `own_attempt` the number in its raw part;
  -- `assert_step_output` is the check of a compiled schema.
  unfoldable pub save_execute_step :
      (Fields → Result (Unit {0}))
      → ℕ
      → ℕ
      → String
      → SbxRes
      → Fields
      → Option ℕ
      → Json
      → Option ℕ
      → Async Ledger (Unit {0})
  unfolding next_step_attempt
  save_execute_step assert_step_output start finish run_id result members own_attempt decision given
        w =
      let attempt = final_attempt own_attempt given run_id w in
      (lift (assert_step_output members)
          >> store_execution run_id result decision (execution_record start finish members attempt)
              attempt)
        w
