-- ===== src/Oc/Wrapper.antt =====
-- The wrapper of the OpenCode client: src/oc/wrapper.ts, with src/oc/cache-key.ts.
-- The SDK, the fixtures and the stall detector are parameters that change a state of their own.
pub mod Replay
use sisu_kodo.Prelude.{
  ℕ, String, Bool, true, false, not, ◌&&◌, ◌||◌, Option, none, some, List, [], ◌∷◌, ◌===◌, find,
  any, all, is_some, ◌<>◌, decimal, if◌then◌else◌, ◌or_default◌,
}
use mathlib.Core.Option
use sisu_kodo.Prelude.Json.{Json, str, obj, Fields, end, field, fields?}
use sisu_kodo.Failure.{Error, plain, message, value_or, Result, ok, err}
use sisu_kodo.Failure
use sisu_kodo.Failure.Async.{Async, pure, throw, lift, catch, ◌>>=◌, ◌>>◌}
use sisu_kodo.Oc.Sessions.{Session, get_session, set_session, count_prompt}
use sisu_kodo.Oc.Ledger.{
  OcOutput, OpencodeCallRow, CacheEntry, assert_tool_allowlist, insert_opencode_call,
  find_opencode_call_by_op_key, cache_get, cache_set, persisted_output,
}
use sisu_kodo.Oc.Guard.{assert_no_child_session}
use sisu_kodo.Oc.Timeout.{run_with_timeout_policy}

pub data OcMode : Type 0 where
  replay record_ live : OcMode

pub record Client (S : Type 0) : Type 0 where
  pub sessions : List Session
  pub cache : List CacheEntry
  pub ledger : List OpencodeCallRow
  pub outside : S

pub record OcConfig : Type 0 where
  pub oc_mode : OcMode
  pub oc_strict_mode : Bool

-- A call of `promptStructured`; `options_json` is what the guard walks of the options.
pub record Prompt : Type 0 where
  pub session_id : String
  pub prompt : String
  pub schema : Json
  pub options_json : Json
  pub agent : Option String
  pub run_id : String
  pub step_id : String
  pub attempt : ℕ
  pub force : Bool
  pub has_producer : Bool

-- `if (text)`
abbrev pub truthy : Option String → Option String
truthy none = none
truthy (some s) = if s === "" then none else some s

abbrev pub is_live : OcMode → Bool
is_live live = true
is_live _ = false

-- The mode that fixtures run in: a producer stands in for a missing fixture.
unfoldable pub fixture_mode : OcMode → Bool → OcMode
fixture_mode replay has_producer = if has_producer then live else replay
fixture_mode record_ has_producer = record_
fixture_mode live has_producer = live

unfoldable pub rethrow_if_strict_live : OcConfig → Error → String → Result (Unit {0})
rethrow_if_strict_live config e operation =
    if is_live config.oc_mode && config.oc_strict_mode
    then err (plain ("oc_live_unavailable:" <> (operation <> (":" <> message e))))
    else ok tt

abbrev pub tighten_prompt : String → String
tighten_prompt prompt =
    prompt <> "\n\nIMPORTANT: Be more concise and tighten scope to avoid timeout."

-- `asRecordOrUndefined`
abbrev pub object_of : Option Json → Option Fields
object_of none = none
object_of (some v) = fields? v

-- What the guard walks of a call.
abbrev pub prompt_json : Prompt → Json
prompt_json p = obj (
    field "sessionId" (str p.session_id) (
      field "prompt" (str p.prompt) (field "schema" p.schema (field "options" p.options_json end))))

-- What the client calls: the SDK, which it has in live mode, the fixtures, SHA-256 in hexadecimal, the
-- text of a schema, and the race against the stall detector.
pub record Outside (S : Type 0) : Type 0 where
  pub sdk_prompt : String → String → Prompt → Async (Client S) OcOutput
  pub sdk_revert : String → Async (Client S) (Unit {0})
  pub sdk_create_session : String → String → Async (Client S) String
  pub fixture_run : OcMode → String → String → Prompt → Async (Client S) OcOutput
  pub fixture_revert : String → Async (Client S) (Unit {0})
  pub sha256 : String → String
  pub json_text : Json → String
  pub race : Async (Client S) OcOutput → Async (Client S) OcOutput

module _ {S : Type 0} (config : OcConfig) (out : Outside S) where
  unfoldable pub create_op_key : Prompt → String
  create_op_key p = out.sha256 (
      p.run_id
      <> (":"
          <> (p.step_id
              <> (":"
                  <> (decimal p.attempt
                      <> (":"
                          <> (out.sha256 (out.json_text p.schema)
                              <> (":" <> out.sha256 p.prompt))))))))

  unfoldable pub revert : String → Async (Client S) (Unit {0})
  unfolding rethrow_if_strict_live
  revert session_id =
      if is_live config.oc_mode
      then catch (out.sdk_revert session_id)
          (λ e. lift (rethrow_if_strict_live config e "revert") >> out.fixture_revert session_id)
      else out.fixture_revert session_id

  unfoldable pub save_session : String → String → Async (Client S) String
  save_session run_id session_id w =
      let stored = set_session w.sessions run_id session_id in
      (
        Failure.◌>>=◌ stored (λ sessions. ok session_id),
        record w { sessions = value_or w.sessions stored },
      )

  -- `fake_id` is the id that is made up when no SDK gives one.
  unfoldable pub open_session : String → String → String → Async (Client S) String
  unfolding rethrow_if_strict_live save_session
  open_session run_id title fake_id =
      if is_live config.oc_mode
      then catch (out.sdk_create_session run_id title >>= save_session run_id) (λ e.
        lift (rethrow_if_strict_live config e "createSession") >> save_session run_id fake_id)
      else save_session run_id fake_id

  unfoldable pub create_session : String → String → String → Async (Client S) String
  create_session run_id title fake_id w =
      elim (assert_no_child_session
          (obj (field "runId" (str run_id) (field "title" (str title) end))))
        as (λ _. Result String × Client S) [
          | err e ↦ (err e, w)
          | ok _ ↦ elim (truthy (get_session w.sessions run_id)) [
            | some existing ↦ (ok existing, w)
            | none ↦ open_session run_id title fake_id w
          ]
        ]

  -- `executePrompt`
  unfoldable pub execute_prompt : Prompt → String → Async (Client S) OcOutput
  unfolding create_op_key fixture_mode rethrow_if_strict_live
  execute_prompt p current =
      let fallback : Async (Client S) OcOutput =
        out.fixture_run (fixture_mode config.oc_mode p.has_producer) (create_op_key p) current p in
      if is_live config.oc_mode
      then catch (out.sdk_prompt p.session_id current p) (λ e.
        lift (rethrow_if_strict_live config e "promptStructured")
        >> (if not p.has_producer then throw e else fallback))
      else fallback

  unfoldable pub attempt_prompt : Prompt → Async (Client S) OcOutput
  attempt_prompt p =
      run_with_timeout_policy out.race (execute_prompt p) (revert p.session_id) tighten_prompt
        p.step_id p.prompt

  -- The row that a call leaves, whether it returned an output or threw.
  unfoldable pub call_row : String → Prompt → Result OcOutput → OpencodeCallRow
  unfolding create_op_key
  call_row id p result = record {
    id = id;
    run_id = p.run_id;
    step_id = p.step_id;
    op_key = create_op_key p;
    session_id = p.session_id;
    agent = p.agent or_default "build";
    schema_hash = out.sha256 (out.json_text p.schema);
    prompt = p.prompt;
    structured = elim result [ ok o ↦ object_of o.structured | err _ ↦ none ];
    tool_calls = elim result [ ok o ↦ some o.toolcalls | err _ ↦ none ];
    response = elim result [
      | ok o ↦ o.response
      | err e ↦ record { members = field "error" (str (message e)) end; total_tokens = none }
    ];
    error = elim result [ ok _ ↦ none | err e ↦ some e ];
  }

  -- The `finally` block; an insertion that fails is only reported.
  unfoldable pub ledger_call : Bool → String → Prompt → Result OcOutput → Client S → Client S
  ledger_call writes id p result w =
      if writes
      then record w { ledger = insert_opencode_call w.ledger (call_row id p result) }
      else w

  unfoldable pub remember : Prompt → OcOutput → Async (Client S) OcOutput
  remember p output w = (
    ok output,
    record w {
      cache = cache_set w.cache (create_op_key p) output;
      sessions = count_prompt w.sessions p.run_id (output.response.total_tokens or_default 0);
    },
  )

  -- After the `finally` block.
  unfoldable pub accept_output : Prompt → OcOutput → Async (Client S) OcOutput
  accept_output p output =
      lift (assert_tool_allowlist (p.agent or_default "build") output.toolcalls) >>= λ _.
      remember p output

  unfoldable pub call_out : Bool → String → Prompt → Async (Client S) OcOutput
  call_out writes id p w =
      let left : Result OcOutput × Client S = attempt_prompt p w in
      (lift left.0 >>= accept_output p) (ledger_call writes id p left.0 left.1)

  -- What is already known of a call: the cache first, then the ledger, else the call goes out.
  unfoldable pub answer_known :
      Option OcOutput
      → Option OpencodeCallRow
      → Prompt
      → Async (Client S) OcOutput
      → Async (Client S) OcOutput
  answer_known (some cached) row p call w = (ok cached, w)
  answer_known none (some row) p call w = (
    ok (persisted_output row),
    record w { cache = cache_set w.cache (create_op_key p) (persisted_output row) },
  )
  answer_known none none p call w = call w

  unfoldable pub look_up_or_call : Bool → String → Prompt → Async (Client S) OcOutput
  look_up_or_call writes id p w =
      if p.force
      then call_out writes id p w
      else answer_known (cache_get w.cache (create_op_key p))
          (find_opencode_call_by_op_key w.ledger (create_op_key p)) p (call_out writes id p) w

  -- `writes` says whether the insertion into the ledger succeeds, `id` is the new row's.
  unfoldable pub prompt_structured : Bool → String → Prompt → Async (Client S) OcOutput
  prompt_structured writes id p =
      lift (assert_no_child_session (prompt_json p)) >>= λ _. look_up_or_call writes id p
