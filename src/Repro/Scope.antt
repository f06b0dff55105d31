-- ===== src/Repro/Scope.antt =====
-- The workflows that belong to a run: discoverDbosWorkflowScope of src/lib/repro.ts. A set is a list in
-- the order of insertion. The system database is a parameter: whether the status table is there, its
-- columns, and its rows, read by the names of two columns. The loop takes fuel, a round for each row
-- and two more.
pub mod Members
pub mod Closed
pub mod Found
use sisu_kodo.Prelude.{
  ℕ, suc, zero, ◌+◌, String, Bool, true, false, not, ◌&&◌, ◌||◌, Option, none, some, List, [], ◌∷◌,
  ◌++◌, ◌===◌, any, length, ◌<>◌, if◌then◌else◌,
}

-- A row of `dbos.workflow_status`, as the query sees it.
pub record StatusRow : Type 0 where
  pub parent : Option String
  pub child : Option String

pub record SystemDb : Type 0 where
  pub has_status_table : Bool
  pub columns : List String
  pub status_rows : String → String → List StatusRow

abbrev pub member : String → List String → Bool
member x [] = false
member x (y ∷ ys) = y === x || member x ys

-- `ids.add(x)`
abbrev pub add_id : List String → String → List String
add_id ids x = if member x ids then ids else ids ++ x ∷ []

abbrev pub add_given : List String → Option String → List String
add_given ids none = ids
add_given ids (some x) = if x === "" then ids else add_id ids x

add_task_keys : List String → List (Option String) → List String
add_task_keys ids [] = ids
add_task_keys ids (key ∷ keys) = add_task_keys (add_given ids key) keys

abbrev escalation_key : String → Option String → Option String
escalation_key workflow_id none = none
escalation_key workflow_id (some gate) =
    if gate === "" then none else some ("esc:" <> (workflow_id <> (":" <> gate)))

add_gate_keys : String → List String → List (Option String) → List String
add_gate_keys workflow_id ids [] = ids
add_gate_keys workflow_id ids (gate ∷ gates) =
    add_gate_keys workflow_id (add_given ids (escalation_key workflow_id gate)) gates

-- The ids that are known without the status table, from task keys and gate keys.
unfoldable pub first_ids : String → List (Option String) → List (Option String) → List String
unfolding add_task_keys add_gate_keys
first_ids workflow_id task_keys gate_keys =
    add_gate_keys workflow_id (add_task_keys (workflow_id ∷ []) task_keys) gate_keys

abbrev pub first_of : List String → String → String → Option String
first_of columns a b =
    if member a columns then some a else if member b columns then some b else none

abbrev pub in_frontier : List String → Option String → Bool
in_frontier frontier none = false
in_frontier frontier (some p) = member p frontier

-- The text of a column; a missing one is skipped as an empty one is.
abbrev pub child_text : StatusRow → String
child_text r = elim r.child [ none ↦ "" | some c ↦ c ]

-- SELECT DISTINCT child … WHERE parent = ANY(frontier)
unfoldable pub children : List StatusRow → List String → List String
children [] frontier = []
children (r ∷ rows) frontier =
    let rest = children rows frontier in
    if in_frontier frontier r.parent && not (member (child_text r) rest)
    then child_text r ∷ rest
    else rest

-- One row of the answer.
abbrev pub is_new : String → List String → Bool
is_new c ids = not (c === "") && not (member c ids)

unfoldable pub add_new : List String → List String → List String → List String × List String
add_new [] ids frontier = (ids, frontier)
add_new (c ∷ cs) ids frontier =
    add_new cs (if is_new c ids then ids ++ c ∷ [] else ids)
      (if is_new c ids then frontier ++ c ∷ [] else frontier)

unfoldable pub explore : ℕ → List StatusRow → List String → List String → Option (List String)
explore zero rows ids frontier = none
explore (suc fuel) rows ids [] = some ids
explore (suc fuel) rows ids (x ∷ frontier) =
    explore fuel rows (add_new (children rows (x ∷ frontier)) ids []).0
      (add_new (children rows (x ∷ frontier)) ids []).1

abbrev pub explore_columns :
    SystemDb → List String → Option String → Option String → Option (List String)
explore_columns db ids (some parent) (some child) =
    explore (suc (suc (length (db.status_rows parent child)))) (db.status_rows parent child) ids ids
explore_columns db ids (some parent) none = some ids
explore_columns db ids none child = some ids

unfoldable pub discover_workflow_scope :
    SystemDb → String → List (Option String) → List (Option String) → Option (List String)
discover_workflow_scope db workflow_id task_keys gate_keys =
    let ids = first_ids workflow_id task_keys gate_keys in
    if not db.has_status_table
    then some ids
    else explore_columns db ids (first_of db.columns "parent_workflow_uuid" "parent_workflow_id")
        (first_of db.columns "workflow_uuid" "workflow_id")
