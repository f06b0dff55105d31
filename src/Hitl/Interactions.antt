-- ===== src/Hitl/Interactions.antt =====
-- Gates and interactions on record: src/db/humanGateRepo.ts. A table is the list of its rows, the
-- oldest first; `now` is the database's clock.
pub mod Once
pub mod Dedupe
use sisu_kodo.Prelude.{
  ℕ, Bool, true, false, not, ◌&&◌, ◌||◌, Option, none, some, List, [], ◌∷◌, ◌++◌, find, Text, codes,
  same, same_iff, starts_with, String, ◌===◌, eq_iff, ltb, arith, ◌≡◌, refl, ap, ◌∙◌, if◌then◌else◌,
  Bool-cases, Option-cases, inl, inr,
}
use sisu_kodo.Prelude.Json.{Json}
use sisu_kodo.Failure.{Error, plain, Result, ok, err, ◌>>=◌, ◌>>◌}
use sisu_kodo.Hitl.Topic.{normalize_hitl_gate_key, to_human_topic}

pub record HumanGate : Type 0 where
  pub run_id : String
  pub gate_key : Text
  pub topic : Text
  pub created_at : ℕ

abbrev pub is_gate : String → Text → HumanGate → Bool
is_gate run_id gate_key g = g.run_id === run_id && same g.gate_key gate_key

unfoldable pub find_human_gate : List HumanGate → String → Text → Option HumanGate
find_human_gate rows run_id gate_key = find (is_gate run_id gate_key) rows

abbrev pub append_unless : Option HumanGate → HumanGate → List HumanGate → List HumanGate
append_unless none g rows = rows ++ (g ∷ [])
append_unless (some _) g rows = rows

-- ON CONFLICT (run_id, gate_key) DO NOTHING
unfoldable pub insert_human_gate : ℕ → List HumanGate → String → Text → Text → List HumanGate
unfolding find_human_gate
insert_human_gate now rows run_id gate_key topic =
    append_unless (find_human_gate rows run_id gate_key)
      (record { run_id = run_id; gate_key = gate_key; topic = topic; created_at = now }) rows

pub record HumanInteraction : Type 0 where
  pub workflow_id : String
  pub run_id : Option String
  pub gate_key : Text
  pub topic : Text
  pub dedupe_key : String
  pub payload_hash : String
  pub payload : Json
  pub origin : String
  pub created_at : ℕ

-- The argument of `insertHumanInteraction`.
pub record NewInteraction : Type 0 where
  pub workflow_id : String
  pub run_id : Option String
  pub gate_key : Text
  pub topic : Text
  pub dedupe_key : String
  pub payload_hash : String
  pub payload : Json
  pub origin : String

pub record Answer : Type 0 where
  pub inserted : Bool
  pub interaction : HumanInteraction
  pub rows : List HumanInteraction

abbrev pub has_dedupe_key : String → Text → String → HumanInteraction → Bool
has_dedupe_key workflow_id gate_key dedupe_key r =
    r.workflow_id === workflow_id && same r.gate_key gate_key && r.dedupe_key === dedupe_key

abbrev pub newer : HumanInteraction → Option HumanInteraction → Option HumanInteraction
newer r none = some r
newer r (some s) = if ltb r.created_at s.created_at then some s else some r

-- ORDER BY created_at DESC LIMIT 1
unfoldable pub latest : (HumanInteraction → Bool) → List HumanInteraction → Option HumanInteraction
latest p [] = none
latest p (r ∷ rs) = let rest = latest p rs in if p r then newer r rest else rest

abbrev pub drift_error : Error
drift_error = plain "dedupeKey conflict: drift on topic or payload"

abbrev pub check_drift : Option HumanInteraction → Text → String → Result (Unit {0})
check_drift none topic payload_hash = ok tt
check_drift (some r) topic payload_hash =
    if not (same r.topic topic) || not (r.payload_hash === payload_hash)
    then err drift_error
    else ok tt

abbrev pub new_interaction : ℕ → NewInteraction → Text → Text → HumanInteraction
new_interaction now i gate_key topic = record {
  workflow_id = i.workflow_id;
  run_id = i.run_id;
  gate_key = gate_key;
  topic = topic;
  dedupe_key = i.dedupe_key;
  payload_hash = i.payload_hash;
  payload = i.payload;
  origin = i.origin;
  created_at = now;
}

-- After the insert: the new row, or the row that the conflict is with.
abbrev pub insert_or_read :
    Option HumanInteraction → HumanInteraction → List HumanInteraction → Result Answer
insert_or_read none row rows =
    ok (record { inserted = true; interaction = row; rows = rows ++ (row ∷ []) })
insert_or_read (some existing) row rows = do
  check_drift (some existing) row.topic row.payload_hash
  ok (record { inserted = false; interaction = existing; rows = rows })

-- The topic of a gate is written anew from its key.
abbrev pub normalized_topic : Text → Text → Result Text
normalized_topic gate_key topic =
    if starts_with topic (codes "human:") then to_human_topic gate_key else ok topic

abbrev pub has_unique_key : HumanInteraction → HumanInteraction → Bool
has_unique_key row r =
    r.workflow_id === row.workflow_id
    && same r.gate_key row.gate_key
    && same r.topic row.topic
    && r.dedupe_key === row.dedupe_key

unfoldable pub insert_row : List HumanInteraction → HumanInteraction → Result Answer
unfolding latest
insert_row rows row = do
  check_drift (latest (has_dedupe_key row.workflow_id row.gate_key row.dedupe_key) rows) row.topic
      row.payload_hash
  insert_or_read (find (has_unique_key row) rows) row rows

unfoldable pub insert_human_interaction : ℕ → List HumanInteraction → NewInteraction → Result Answer
unfolding insert_row
insert_human_interaction now rows i = do
  gate_key ← normalize_hitl_gate_key i.gate_key
  topic ← normalized_topic gate_key i.topic
  insert_row rows (new_interaction now i gate_key topic)
