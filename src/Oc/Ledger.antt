-- ===== src/Oc/Ledger.antt =====
-- What a prompt's output is and where it is kept: the cache of src/oc/wrapper-cache.ts and the
-- ledger of src/db/opencodeCallRepo.ts, with the tools an agent may call, src/oc/allowlist.ts.
-- Columns of the ledger that no lookup hands back are left out.
use sisu_kodo.Prelude.{
  ℕ, String, Bool, Option, List, [], ◌∷◌, ◌===◌, find, any, ◌<>◌, if◌then◌else◌, ◌or_default◌,
}
use mathlib.Core.Option
use sisu_kodo.Prelude.Json.{Json, obj, Fields}
use sisu_kodo.Failure.{Error, plain, Result, ok, err}

pub record ToolCall : Type 0 where
  pub name : String
  pub args : Json

-- The members of an output that a replay takes from the response.
pub record Response : Type 0 where
  pub members : Fields
  pub total_tokens : Option ℕ

pub record OcOutput : Type 0 where
  pub response : Response
  pub structured : Option Json
  pub toolcalls : List ToolCall

pub record OpencodeCallRow : Type 0 where
  pub id : String
  pub run_id : String
  pub step_id : String
  pub op_key : String
  pub session_id : String
  pub agent : String
  pub schema_hash : String
  pub prompt : String
  pub structured : Option Fields
  pub tool_calls : Option (List ToolCall)
  pub response : Response
  pub error : Option Error

pub record CacheEntry : Type 0 where
  pub op_key : String
  pub output : OcOutput

unfoldable pub get_allowed_tools : String → List String
get_allowed_tools agent =
    if agent === "plan"
    then "read" ∷ "grep" ∷ "glob" ∷ "ls" ∷ "skill" ∷ []
    else "read" ∷ "grep" ∷ "glob" ∷ "ls" ∷ "skill" ∷ "edit" ∷ "write" ∷ "bash" ∷ "patch" ∷ []

unfoldable pub is_allowed_tool : String → ToolCall → Bool
unfolding get_allowed_tools
is_allowed_tool agent call = any (λ tool. tool === call.name) (get_allowed_tools agent)

unfoldable pub assert_tool_allowlist : String → List ToolCall → Result (Unit {0})
unfolding is_allowed_tool
assert_tool_allowlist agent [] = ok tt
assert_tool_allowlist agent (call ∷ calls) =
    let rest = assert_tool_allowlist agent calls in
    if is_allowed_tool agent call
    then rest
    else err (plain ("tool-denied: " <> (call.name <> (" for agent " <> agent))))

-- INSERT INTO app.opencode_calls … ON CONFLICT (op_key) DO NOTHING
unfoldable pub insert_opencode_call : List OpencodeCallRow → OpencodeCallRow → List OpencodeCallRow
insert_opencode_call rows row =
    if any (λ (r : OpencodeCallRow). r.op_key === row.op_key) rows then rows else row ∷ rows

unfoldable pub find_opencode_call_by_op_key : List OpencodeCallRow → String → Option OpencodeCallRow
find_opencode_call_by_op_key rows op_key = find (λ (r : OpencodeCallRow). r.op_key === op_key) rows

unfoldable pub cache_get : List CacheEntry → String → Option OcOutput
cache_get cache op_key =
    Option.map CacheEntry.output (find (λ (e : CacheEntry). e.op_key === op_key) cache)

-- The newest entry of a key is the one found.
unfoldable pub cache_set : List CacheEntry → String → OcOutput → List CacheEntry
cache_set cache op_key output = record { op_key = op_key; output = output } ∷ cache

-- The output that a row of the ledger stands for.
unfoldable pub persisted_output : OpencodeCallRow → OcOutput
persisted_output row = record {
  response = row.response;
  structured = Option.map obj row.structured;
  toolcalls = row.tool_calls or_default [];
}
