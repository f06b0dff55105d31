-- ===== src/Examples/Clients.antt =====
-- The theorems on the OpenCode client, artifacts, operators and providers at concrete inputs.
use sisu_kodo.Prelude.{
  leb, any, All, ◌⊎◌, ◌↔◌, ℕ, suc, ◌+◌, ◌≤◌, String, true, false, none, some, List, [], ◌∷◌, any,
  codes, ◌≡◌, ◌↔◌, refl, arith,
}
use sisu_kodo.Prelude.Json.{Json, null, str, obj, end, field}
use sisu_kodo.Failure.{plain, workflow, Result, ok, err}
use sisu_kodo.Failure.Async.{Async, catch, lift, pure, ◌>>=◌, ◌>>◌}
use sisu_kodo.Oc.Guard.{
  normalize_key, assert_no_child_session, is_forbidden, keys, find_forbidden_key,
}
use sisu_kodo.Oc.Guard.Spelled.{Denied, assert_no_child_session_iff}
use sisu_kodo.Oc.Sessions.{
  Session, count_prompt, WithinBudgets, count_prompt-WithinBudgets, get_stats,
}
use sisu_kodo.Oc.Timeout.{run_with_timeout_policy, run_with_timeout_policy-at_most_two}
use sisu_kodo.Oc.Ledger.{OcOutput, assert_tool_allowlist, cache_get, find_opencode_call_by_op_key}
use sisu_kodo.Oc.Wrapper.{
  OcMode, Client, OcConfig, Outside, Prompt, prompt_structured, attempt_prompt, execute_prompt,
  look_up_or_call, answer_known, call_out, accept_output, remember, ledger_call,
}
use sisu_kodo.Oc.Wrapper.Replay.{unforced, prompt_structured-again, prompt_structured-denied}
use sisu_kodo.Artifacts.Uri.{
  ArtifactUriParts, build_artifact_uri, parse_artifact_uri, parse-build_artifact_uri,
}
use sisu_kodo.Artifacts.Insertion.{
  ArtifactRef, ArtifactKey, ArtifactRow, insert_artifact, SameContent, divergence_error,
  insert_artifact-again,
}
use sisu_kodo.Ops.Intents.{OpIntentTag}
use sisu_kodo.Ops.{
  WorkflowOpsSummary, WorkflowOpsStatus, Service, Office, fork_workflow, get_workflow_or_throw,
  serve, noted,
}
use sisu_kodo.Ops.Refused.{fork_workflow-bounded}

abbrev nested_parent : Json
nested_parent = obj (field "options" (obj (field "Parent-ID" (str "s1") end)) end)

assert_no_child_session_iff_example :
    (assert_no_child_session nested_parent ≡ ok tt) ↔ All (λ k. ¬ Denied k) (keys nested_parent)
assert_no_child_session_iff_example = assert_no_child_session_iff nested_parent

abbrev busy_session : Session
busy_session = record {
  run_id = "r1";
  stats = record { session_id = "s1"; message_count = 19; token_count = 7 };
}

count_prompt-WithinBudgets_example : WithinBudgets (count_prompt (busy_session ∷ []) "r1" 3) "r1"
count_prompt-WithinBudgets_example =
    count_prompt-WithinBudgets (busy_session ∷ []) "r1" 3 "r1"
      (unfold get_stats in (omega arith, omega arith))

-- An attempt that stalls and counts itself.
abbrev stalling : String → Async ℕ (Unit {0})
stalling prompt n = (err (workflow "oc_stall" "No activity detected"), suc n)

abbrev no_preparation : Async ℕ (Unit {0})
no_preparation n = (ok tt, n)

run_with_timeout_policy-at_most_two_example :
    (run_with_timeout_policy (λ m. m) stalling no_preparation (λ p. p) "CompileST" "prompt" 0).1
    ≤ 0 + 2
run_with_timeout_policy-at_most_two_example =
    run_with_timeout_policy-at_most_two (λ m. m) stalling no_preparation (λ p. p) "CompileST"
      (λ n. n) (λ p n. omega arith) (λ n. omega arith) "prompt" 0

abbrev editing : OcOutput
editing = record {
  response = record { members = end; total_tokens = some 5 };
  structured = none;
  toolcalls = record { name = "edit"; args = null } ∷ [];
}

abbrev fixtures : Outside (Unit {0})
fixtures = record {
  sdk_prompt = λ s p q w. (err (plain "no SDK"), w);
  sdk_revert = λ s w. (err (plain "no SDK"), w);
  sdk_create_session = λ r t w. (err (plain "no SDK"), w);
  fixture_run = λ m k p q w. (ok editing, w);
  fixture_revert = λ s w. (ok tt, w);
  sha256 = λ s. s;
  json_text = λ j. "{}";
  race = λ m. m;
}

abbrev replaying : OcConfig
replaying = record { oc_mode = OcMode.replay; oc_strict_mode = false }

abbrev prompt_of : String → Prompt
prompt_of agent = record {
  session_id = "s1";
  prompt = "do";
  schema = obj end;
  options_json = obj end;
  agent = some agent;
  run_id = "r1";
  step_id = "CompileST";
  attempt = 1;
  force = false;
  has_producer = false;
}

abbrev new_client : Client (Unit {0})
new_client = record { sessions = []; cache = []; ledger = []; outside = tt }

prompt_structured-again_example :
    prompt_structured replaying fixtures true "c2"
      (unforced (prompt_of "build"))
      (prompt_structured replaying fixtures true "c1" (prompt_of "build") new_client).1
    ≡ (
      ok editing,
      (prompt_structured replaying fixtures true "c1" (prompt_of "build") new_client).1,
    )
prompt_structured-again_example =
    prompt_structured-again replaying fixtures (prompt_of "build") true true "c1" "c2" new_client
      {o = editing}
      (unfold prompt_structured look_up_or_call answer_known call_out attempt_prompt
          run_with_timeout_policy execute_prompt catch accept_output remember ledger_call cache_get
          find_opencode_call_by_op_key assert_no_child_session find_forbidden_key is_forbidden
          normalize_key ◌>>=◌ lift assert_tool_allowlist in
        refl)

prompt_structured-denied_example :
    ((prompt_structured replaying fixtures true "c1" (prompt_of "plan") new_client).0
      ≡ err (plain "tool-denied: edit for agent plan"))
    × (replayed : OcOutput) × ((prompt_structured replaying fixtures true "c2"
          (prompt_of "plan")
          (prompt_structured replaying fixtures true "c1" (prompt_of "plan") new_client).1).0
        ≡ ok replayed)
    × (replayed.toolcalls ≡ editing.toolcalls)
prompt_structured-denied_example =
    prompt_structured-denied replaying fixtures (prompt_of "plan") true "c1" "c2" new_client editing
      (plain "tool-denied: edit for agent plan")
      (unfold assert_no_child_session find_forbidden_key is_forbidden normalize_key in refl) refl
      (unfold cache_get in refl) (unfold find_opencode_call_by_op_key in refl)
      (unfold attempt_prompt run_with_timeout_policy execute_prompt catch in refl)
      (unfold cache_get attempt_prompt run_with_timeout_policy execute_prompt catch in refl)
      (unfold find_opencode_call_by_op_key attempt_prompt run_with_timeout_policy execute_prompt
          catch in
        refl)
      (unfold assert_tool_allowlist in refl)

abbrev a_part : ArtifactUriParts
a_part = record {
  run_id = codes "r1";
  step_id = codes "OPS";
  task_key = [];
  name = codes "logs/out.txt";
}

parse-build_artifact_uri_example : parse_artifact_uri (build_artifact_uri a_part) ≡ ok a_part
parse-build_artifact_uri_example = parse-build_artifact_uri a_part refl refl refl

abbrev a_key : ArtifactKey
a_key = record { run_id = "r1"; step_id = "OPS"; task_key = ""; idx = 0; attempt = 1 }

abbrev an_artifact : String → ArtifactRef
an_artifact digest = record { kind = "file"; uri = some "u1"; inline = none; sha256 = digest }

abbrev a_row : ArtifactRow
a_row = record { key = a_key; artifact = an_artifact "d1"; created_at = 1 }

abbrev second_d2 : Result ArtifactRow × List ArtifactRow
second_d2 =
    insert_artifact 2 (insert_artifact 1 [] a_key (an_artifact "d1")).1 a_key (an_artifact "d2")

insert_artifact-again_example :
    ((second_d2.0 ≡ ok a_row) ↔ SameContent (an_artifact "d1") (an_artifact "d2"))
    × ((second_d2.0 ≡ ok a_row) ⊎ (second_d2.0 ≡ err (divergence_error a_key)))
    × (second_d2.1 ≡ (insert_artifact 1 [] a_key (an_artifact "d1")).1)
insert_artifact-again_example =
    insert_artifact-again 1 2 [] a_key (an_artifact "d1") (an_artifact "d2") a_row
      (unfold insert_artifact in refl)

abbrev a_summary : WorkflowOpsSummary
a_summary = record {
  workflow_id = "w1";
  status = WorkflowOpsStatus.success;
  workflow_name = "run";
  created_at = 1;
}

abbrev dbos : Service (Unit {0})
dbos = record {
  get_workflow = λ id s. (ok (some a_summary), s);
  list_workflow_steps = λ id s. (ok (1 ∷ 2 ∷ []), s);
  cancel_workflow = λ id s. (ok tt, s);
  resume_workflow = λ id s. (ok tt, s);
  fork_workflow = λ id request s. (ok "w2", s);
}

abbrev office : Office (Unit {0})
office = record { service = tt; runs = []; intents = []; artifacts = []; disambiguator = 0 }

abbrev a_tag : OpIntentTag
a_tag = record {
  op = "cancel";
  actor = none;
  reason = none;
  target_workflow_id = "w1";
  at = "2026-01-01";
  forked_workflow_id = none;
}

fork_workflow-bounded_example :
    (steps : List ℕ) × ((dbos.list_workflow_steps "w1" tt).0 ≡ ok steps)
    × ((◌≡◌ {A = ℕ} 2 0) ⊎ (any (λ n. leb 2 n) steps ≡ true))
fork_workflow-bounded_example =
    fork_workflow-bounded (λ _. "d") (λ _. "t") 7 dbos false 1 a_tag office
      (record { step_n = 2; app_version = none }) {ack = ("w1", "w2")}
      (unfold fork_workflow get_workflow_or_throw serve noted ◌>>=◌ ◌>>◌ pure catch in refl)
