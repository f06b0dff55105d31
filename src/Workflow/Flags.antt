-- ===== src/Workflow/Flags.antt =====
-- The test hooks of an intent: src/intent-compiler/runtime-flags.ts.
use sisu_kodo.Prelude.{ℕ, suc, String, Option, none, some, Bool, false, ◌or_default◌, ◌or_else◌}
use sisu_kodo.Prelude.Json.{ℤ, pos, Json, Fields, get, fields?, bool?, num?}

-- The part of an intent that the workflow reads itself.
pub record Intent : Type 0 where
  pub goal : String
  pub inputs : Fields
  pub constraints : Fields

pub record IntentRuntimeFlags : Type 0 where
  pub open_ask_gate : Bool
  pub parallel_approvals : Bool
  pub plan_approval_timeout_s : ℕ

pub record IntentRuntimeOverrides : Type 0 where
  pub open_ask_gate : Option Bool
  pub parallel_approvals : Option Bool
  pub plan_approval_timeout_s : Option ℕ

abbrev nested_record : Option Json → Option Fields
nested_record none = none
nested_record (some v) = fields? v

abbrev pub positive : Option ℤ → Option ℕ
positive (some (pos (suc n))) = some (suc n)
positive _ = none

unfoldable pub read_boolean : Fields → String → Option Bool
read_boolean source key = bool? (get source key)

unfoldable pub read_positive_int : Fields → String → Option ℕ
read_positive_int source key = positive (num? (get source key))

unfoldable pub read_constraint_overrides : Fields → IntentRuntimeOverrides
unfolding read_boolean read_positive_int
read_constraint_overrides constraints =
    let source : Fields = nested_record (get constraints "testHooks") or_default constraints in
    record {
      open_ask_gate =
          read_boolean source "askUser"
          or_else read_boolean source "ask_user"
          or_else read_boolean source "waitForHumanInput";
      parallel_approvals =
          read_boolean source "parallelApprovals"
          or_else read_boolean source "parallel_approvals"
          or_else read_boolean source "parallelGateTest";
      plan_approval_timeout_s =
          read_positive_int source "planApprovalTimeoutS"
          or_else read_positive_int source "plan_approval_timeout_s"
          or_else read_positive_int source "timeoutS";
    }

unfoldable pub resolve_intent_runtime_flags : Intent → ℕ → IntentRuntimeFlags
unfolding read_constraint_overrides
resolve_intent_runtime_flags intent default_timeout =
    let overrides : IntentRuntimeOverrides = read_constraint_overrides intent.constraints in
    record {
      open_ask_gate = overrides.open_ask_gate or_default false;
      parallel_approvals = overrides.parallel_approvals or_default false;
      plan_approval_timeout_s = overrides.plan_approval_timeout_s or_default default_timeout;
    }
