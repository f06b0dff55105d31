-- ===== src/Repro/Scope/Found.antt =====
-- What discoverDbosWorkflowScope of src/lib/repro.ts finds.
use sisu_kodo.Prelude.{String, true, Option, some, List, ◌≡◌, ◌↔◌}
use sisu_kodo.Repro.Scope.{SystemDb, member, first_ids, first_of, discover_workflow_scope}
use sisu_kodo.Repro.Scope.Closed.{InScope, explore-InScope}

-- Where the status table is there and has a column of parents and one of children, the search ends, and
-- its answer holds exactly the workflow, its tasks and escalations and what the rows lead to from these.
pub discover_workflow_scope-InScope :
    (db : SystemDb) (workflow_id : String) (task_keys gate_keys : List (Option String))
    (parent child : String)
    → db.has_status_table ≡ true
    → first_of db.columns "parent_workflow_uuid" "parent_workflow_id" ≡ some parent
    → first_of db.columns "workflow_uuid" "workflow_id" ≡ some child
    → (out : List String) × (discover_workflow_scope db workflow_id task_keys gate_keys ≡ some out)
      × ((x : String)
          → (member x out ≡ true)
            ↔ InScope (db.status_rows parent child) (first_ids workflow_id task_keys gate_keys) x)
unfolding discover_workflow_scope
discover_workflow_scope-InScope db workflow_id task_keys gate_keys parent child h hp hc =
    let (out, ends, exact) =
      explore-InScope (db.status_rows parent child) (first_ids workflow_id task_keys gate_keys) in
    (out, (rw (h, hp, hc) ends), exact)
