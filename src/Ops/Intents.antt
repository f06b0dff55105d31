-- ===== src/Ops/Intents.antt =====
-- The operator intents of src/server/ops-api.ts: whose run they are written to, what they hold, and
-- the key that each is written under.
use sisu_kodo.Prelude.{
  ℕ, ltb, String, ◌||◌, Option, none, some, List, [], ◌∷◌, ◌===◌, ◌<>◌, decimal, if◌then◌else◌,
}
use sisu_kodo.Prelude.Json.{Json, str, obj, Fields, end, field}
use sisu_kodo.Runs.{RunRow}

pub record OpIntentTag : Type 0 where
  pub op : String
  pub actor : Option String
  pub reason : Option String
  pub target_workflow_id : String
  pub at : String
  pub forked_workflow_id : Option String

-- `ORDER BY created_at DESC LIMIT 1`
abbrev newest : RunRow → Option RunRow → RunRow
newest r none = r
newest r (some best) = if ltb r.created_at best.created_at then best else r

unfoldable pub newest_run : List RunRow → String → Option RunRow
newest_run [] id = none
newest_run (r ∷ rows) id =
    let rest = newest_run rows id in
    if r.workflow_id === id || r.id === id then some (newest r rest) else rest

-- The fields of an operator intent that are given.
abbrev given_field : String → Option String → Fields → Fields
given_field name none fields = fields
given_field name (some value) fields = field name (str value) fields

unfoldable pub op_intent_payload : OpIntentTag → Json
op_intent_payload tag = obj (
    field "op" (str tag.op) (
      field "targetWorkflowID" (str tag.target_workflow_id) (
        field "at" (str tag.at) (
          given_field "actor" tag.actor (
            given_field "reason" tag.reason
              (given_field "forkedWorkflowID" tag.forked_workflow_id end))))))

-- `padStart(6, "0")`
abbrev pub pad : ℕ → String
pad n =
    let zeros =
      if ltb n 10
      then "00000"
      else if ltb n 100
      then "0000"
      else if ltb n 1000
      then "000"
      else if ltb n 10000
      then "00"
      else if ltb n 100000
      then "0"
      else "" in
    zeros <> decimal n

unfoldable pub op_intent_task_key : (OpIntentTag → String) → ℕ → OpIntentTag → ℕ → String
op_intent_task_key tag_digest pid tag n =
    "op-intent:"
    <> (tag.op <> (":" <> (tag_digest tag <> (":" <> (decimal pid <> ("-" <> pad n))))))
