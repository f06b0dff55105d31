-- ===== src/Examples/Gates.antt =====
-- The theorems on gates, decisions and queues at concrete inputs.
use sisu_kodo.Prelude.{◌∷◌, none, some, true, false, [], codes, ◌≡◌, ◌↔◌, refl}
use sisu_kodo.Prelude.Json.{Json, str, bool, obj, end, field}
use sisu_kodo.Failure.{ok}
use sisu_kodo.Hitl.Topic.{is_gate_key, to_normalized_slug, normalize_hitl_gate_key}
use sisu_kodo.Hitl.Decision.{
  yes, as_record, resolve_approval_choice, IsApproval, resolve_approval_choice_iff,
}
use sisu_kodo.Hitl.Interactions.Dedupe.{insert_human_interaction-again}
use sisu_kodo.Hitl.Interactions.{NewInteraction, Answer, new_interaction, insert_human_interaction}
use sisu_kodo.Queue.{RunRequest, RecipePolicySource, QueueConfig, ResolvedQueuePolicy}

abbrev approved_reply : Json
approved_reply = obj (field "approved" (bool true) (field "note" (str "fine") end))

resolve_approval_choice_iff_example :
    (resolve_approval_choice approved_reply ≡ yes) ↔ IsApproval (as_record approved_reply)
resolve_approval_choice_iff_example = resolve_approval_choice_iff approved_reply

abbrev pub plain_request : RunRequest
plain_request = record {
  trace_id = none;
  queue_name = none;
  recipe_name = none;
  recipe_version = none;
  workload = none;
  budget = none;
  timeout_ms = none;
  deduplication_id = some "d1";
  task_key = none;
  tenant_id = some "t1";
  queue_partition_key = some "p1";
  lane = none;
  priority = none;
}

abbrev pub default_recipe : RecipePolicySource
default_recipe = record {
  name = "compile-default";
  version = 1;
  queue_name = "intentQ";
  max_concurrency = 4;
  max_steps = 8;
  max_sandbox_minutes = 5;
}

abbrev pub partitioned_config : QueueConfig
partitioned_config = record {
  intent_partition = true;
  intent_priority_enabled = true;
  sbx_partition = true;
  sbx_priority_enabled = false;
}

abbrev pub default_policy : ResolvedQueuePolicy
default_policy = record {
  queue_name = "intentQ";
  priority = some 1;
  deduplication_id = some "d1";
  timeout_ms = none;
  queue_partition_key = some "p1";
  recipe_name = "compile-default";
  recipe_version = 1;
}

abbrev first_reply : NewInteraction
first_reply = record {
  workflow_id = "w1";
  run_id = none;
  gate_key = codes "k";
  topic = codes "sys:k";
  dedupe_key = "d1";
  payload_hash = "h1";
  payload = approved_reply;
  origin = "manual";
}

abbrev first_answer : Answer
first_answer = record {
  inserted = true;
  interaction = new_interaction 1 first_reply (codes "k") (codes "sys:k");
  rows = new_interaction 1 first_reply (codes "k") (codes "sys:k") ∷ [];
}

insert_human_interaction-again_example :
    insert_human_interaction 2 first_answer.rows first_reply
    ≡ ok (record first_answer { inserted = false })
insert_human_interaction-again_example =
    insert_human_interaction-again 1 2 [] first_reply first_answer (
      unfold insert_human_interaction normalize_hitl_gate_key is_gate_key to_normalized_slug in
      refl)
