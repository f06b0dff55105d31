-- ===== src/Examples/Start.antt =====
-- The theorems on starting runs and on tracked steps at concrete inputs.
use sisu_kodo.Prelude.{ℕ, suc, true, false, none, some, [], ◌∷◌, ◌≡◌, refl}
use sisu_kodo.Prelude.Json.{Fields, end}
use sisu_kodo.Failure.{plain, message, Result, ok, err}
use sisu_kodo.Failure.Async.{Async, pure, lift, catch, ◌>>=◌, ◌>>◌}
use sisu_kodo.Budget.{assert_ingress_budget}
use sisu_kodo.Queue.{resolve_queue_policy, assert_dedupe_or_priority_edge, resolve_lane_priority}
use sisu_kodo.Runs.{failed, find_run_by_id, find_run_by_workflow_id}
use sisu_kodo.Runs.Insertion.{NewRun, new_row, insert_run}
use sisu_kodo.Runs.Steps.{Tracked, run_tracked_step}
use sisu_kodo.Start.{
  Engine, IntentIdentity, Ack, World, Clock, is_conflict, new_run, derive_run_id, insert_in,
  start_workflow, launch, start_intent_run,
}
use sisu_kodo.Start.Options.{
  Enqueueable, build_dbos_intent_run_config, to_intent_run_workflow_options, resolved-Enqueueable,
}
use sisu_kodo.Start.Again.{start_intent_run-replay, start_intent_run-rejected}
use sisu_kodo.Examples.Gates.{plain_request, default_recipe, partitioned_config, default_policy}

abbrev accepting : Engine (Unit {0})
accepting id options e = (ok tt, e)

abbrev rejecting : Engine (Unit {0})
rejecting id options e = (err (plain "connection lost"), e)

abbrev an_intent : IntentIdentity
an_intent = record {
  id = "i1";
  intent_hash = some "h1";
  recipe_id = some "compile-default";
  recipe_v = some "1";
  recipe_hash = none;
}

abbrev clock_at : ℕ → Clock
clock_at n = record { insertion = n; failure = suc n }

abbrev no_runs : World (Unit {0})
no_runs = record { runs = []; engine = tt }

abbrev start : Engine (Unit {0}) → Clock → Async (World (Unit {0})) Ack
start engine clock =
    start_intent_run partitioned_config (λ _. none) (λ _ _. some default_recipe) (λ s. s) engine
      clock (an_intent ∷ []) "i1" plain_request none

abbrev first_ack : Ack
first_ack = record { run_id = "run_i1"; workflow_id = "i1"; is_replay = false }

-- The engine rejects the second start, which is a replay all the same.
start_intent_run-replay_example :
    ((start rejecting
        (clock_at 9)
        (record { runs = (start accepting (clock_at 1) no_runs).1.runs; engine = tt })).0
      ≡ ok (record first_ack { is_replay = true }))
    × ((start rejecting
          (clock_at 9)
          (record { runs = (start accepting (clock_at 1) no_runs).1.runs; engine = tt })).1.runs
        ≡ (start accepting (clock_at 1) no_runs).1.runs)
start_intent_run-replay_example =
    start_intent_run-replay partitioned_config (λ _. none) (λ _ _. some default_recipe) (λ s. s)
      (an_intent ∷ []) "i1" plain_request none accepting rejecting (clock_at 1) (clock_at 9) no_runs
      tt {ack = first_ack}
      (unfold start_intent_run resolve_queue_policy assert_ingress_budget
          assert_dedupe_or_priority_edge resolve_lane_priority ◌>>=◌ ◌>>◌ lift pure catch insert_in
          launch start_workflow insert_run find_run_by_workflow_id new_run derive_run_id in
        refl)

abbrev started_run : NewRun
unfolding new_run derive_run_id
started_run = new_run (λ s. s) an_intent plain_request default_policy "i1"

start_intent_run-rejected_example :
    ((start rejecting (clock_at 1) no_runs).0 ≡ err (plain "connection lost"))
    × (find_run_by_id (start rejecting (clock_at 1) no_runs).1.runs started_run.id
        ≡ some (record (new_row 1 started_run) { status = failed; updated_at = 2 }))
unfolding started_run
start_intent_run-rejected_example =
    start_intent_run-rejected partitioned_config (λ _. none) (λ _ _. some default_recipe) (λ s. s)
      (an_intent ∷ []) "i1" plain_request none rejecting (clock_at 1) no_runs
      {policy = default_policy} {intent = an_intent}
      {row = record { run = new_row 1 started_run; inserted = true }} (plain "connection lost")
      (unfold resolve_queue_policy assert_ingress_budget assert_dedupe_or_priority_edge
          resolve_lane_priority in
        refl)
      refl (unfold insert_run find_run_by_workflow_id in refl) refl refl
      (unfold is_conflict message in refl)

resolved-Enqueueable_example :
    Enqueueable partitioned_config "intentQ"
      (build_dbos_intent_run_config partitioned_config "i1"
        (some (to_intent_run_workflow_options partitioned_config default_policy))).enqueue_options
resolved-Enqueueable_example =
    resolved-Enqueueable partitioned_config (λ _. none) (λ _ _. some default_recipe) plain_request
      true none "i1" {policy = default_policy}
      (unfold resolve_queue_policy assert_ingress_budget assert_dedupe_or_priority_edge
          resolve_lane_priority in
        refl)

abbrev compiling : Async (Tracked (Unit {0})) Fields
compiling w = (ok end, w)

abbrev nothing_tracked : Tracked (Unit {0})
nothing_tracked = record { run_steps = []; artifacts = []; outside = tt }

-- The first attempt, given by the engine.
abbrev compiled : Result (Fields × ℕ) × Tracked (Unit {0})
compiled =
    run_tracked_step (λ _. "") "digest" (λ _ _. ok tt) (1, 2, 3) "r1" "CompileST" "compilation"
      (some 1) compiling nothing_tracked
