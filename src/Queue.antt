-- ===== src/Queue.antt =====
-- The queue policy of a run request: src/workflow/queue-policy.ts, with the queue settings of
-- src/workflow/dbos/queues.ts. Recipes come from the registry as a lookup.
pub mod Numbers
pub mod Accepted
use sisu_kodo.Prelude.{
  ℕ, zero, suc, ◌+◌, ◌*◌, ◌-◌, Bool, true, false, not, ◌&&◌, ◌||◌, Option, none, some, List, [],
  ◌∷◌, any, Text, codes, trim, drop_spaces, is_space, String, ◌===◌, ◌<>◌, decimal, ltb, leb, ◌==◌,
  is_some, if◌then◌else◌, ◌or_default◌, ◌or_else◌,
}
use sisu_kodo.Prelude.Json.{ℤ, pos, negsuc}
use sisu_kodo.Failure.{Error, budget_guard, named, message, Result, ok, err, ◌>>=◌, ◌>>◌}
use Numbers.{parse_int, version_number}
use sisu_kodo.Budget.{RunBudget, Workload, assert_ingress_budget}

pub data RunLane : Type 0 where
  interactive batch : RunLane

pub record RunRequest : Type 0 where
  pub trace_id : Option String
  pub queue_name : Option String
  pub recipe_name : Option String
  pub recipe_version : Option ℕ
  pub workload : Option Workload
  pub budget : Option RunBudget
  pub timeout_ms : Option ℕ
  pub deduplication_id : Option String
  pub task_key : Option String
  pub tenant_id : Option String
  pub queue_partition_key : Option String
  pub lane : Option RunLane
  pub priority : Option ℕ

pub record RecipeRef : Type 0 where
  pub id : String
  pub v : String

-- The part of a pinned version that the policy reads.
pub record PinnedRecipe : Type 0 where
  pub queue : String
  pub max_fanout : ℤ
  pub max_steps : ℤ
  pub max_sbx_min : ℤ

pub record RecipePolicySource : Type 0 where
  pub name : String
  pub version : ℕ
  pub queue_name : String
  pub max_concurrency : ℕ
  pub max_steps : ℕ
  pub max_sandbox_minutes : ℕ

pub record QueueConfig : Type 0 where
  pub intent_partition : Bool
  pub intent_priority_enabled : Bool
  pub sbx_partition : Bool
  pub sbx_priority_enabled : Bool

pub record ResolvedQueuePolicy : Type 0 where
  pub queue_name : String
  pub priority : Option ℕ
  pub deduplication_id : Option String
  pub timeout_ms : Option ℕ
  pub queue_partition_key : Option String
  pub recipe_name : String
  pub recipe_version : ℕ

abbrev pub policy_error : String → Error
policy_error m = named "QueuePolicyError" m

-- `if (condition) throw new QueuePolicyError(m)`
abbrev pub refuse_if : Bool → String → Result (Unit {0})
refuse_if condition m = if condition then err (policy_error m) else ok tt

unfoldable pub is_partitioned_queue : QueueConfig → String → Bool
is_partitioned_queue config queue =
    if queue === "intentQ"
    then config.intent_partition
    else (if queue === "sbxQ" then config.sbx_partition else false)

unfoldable pub is_priority_enabled_queue : QueueConfig → String → Bool
is_priority_enabled_queue config queue =
    if queue === "intentQ"
    then config.intent_priority_enabled
    else (if queue === "sbxQ" then config.sbx_priority_enabled else true)

abbrev lane_priority : RunLane → ℕ
lane_priority interactive = 1
lane_priority batch = 1000

unfoldable pub resolve_lane_priority : Option RunLane → Option ℕ → ℕ
resolve_lane_priority lane explicit_priority =
    explicit_priority or_default lane_priority (lane or_default interactive)

abbrev pub blank_or_missing : Option String → Bool
blank_or_missing none = true
blank_or_missing (some s) = s === ""

unfoldable pub assert_dedupe_or_priority_edge : Option String → Option ℕ → Result (Unit {0})
assert_dedupe_or_priority_edge deduplication_id priority =
    refuse_if (blank_or_missing deduplication_id && not (is_some priority))
      "dedupe_or_priority_required"

unfoldable pub is_allowed_queue : String → Bool
is_allowed_queue queue =
    queue === "compileQ" || queue === "sbxQ" || queue === "controlQ" || queue === "intentQ"

unfoldable pub assert_allowed_queue : String → Result (Unit {0})
unfolding is_allowed_queue
assert_allowed_queue queue =
    refuse_if (not (is_allowed_queue queue)) ("unsupported queueName: " <> queue)

unfoldable pub as_positive_integer : ℤ → String → Result ℕ
as_positive_integer (pos (suc n)) label = ok (suc n)
as_positive_integer _ label = err (policy_error ("invalid recipe limit " <> label))

abbrev pub pinned_source : RecipeRef → Option PinnedRecipe → Result RecipePolicySource
pinned_source ref none = err (policy_error ("recipe not found: " <> (ref.id <> ("@" <> ref.v))))
pinned_source ref (some pinned) = do
  assert_allowed_queue pinned.queue
  version ← as_positive_integer (version_number ref.v) "version"
  max_concurrency ← as_positive_integer pinned.max_fanout "maxFanout"
  max_steps ← as_positive_integer pinned.max_steps "maxSteps"
  max_sandbox_minutes ← as_positive_integer pinned.max_sbx_min "maxSbxMin"
  ok (record {
    name = ref.id;
    version = version;
    queue_name = pinned.queue;
    max_concurrency = max_concurrency;
    max_steps = max_steps;
    max_sandbox_minutes = max_sandbox_minutes;
  })

abbrev pub named_source : String → Option RecipePolicySource → Result RecipePolicySource
named_source name none = err (policy_error ("recipe not found: " <> name))
named_source name (some recipe) = do assert_allowed_queue recipe.queue_name; ok recipe

abbrev pub overrides_name : Option String → String → Bool
overrides_name none id = false
overrides_name (some n) id = not (n === id)

-- A budget violation is rethrown as a policy error with the same message.
unfoldable pub as_policy_error : Result (Unit {0}) → Result (Unit {0})
as_policy_error (err (budget_guard v)) = err (policy_error (message (budget_guard v)))
as_policy_error r = r

abbrev pub cap : String → ℕ → ℕ → Result (Unit {0})
cap label asked limit =
    refuse_if (ltb limit asked)
      ("recipe cap exceeded: " <> (label <> (" " <> (decimal asked <> (" > " <> decimal limit)))))

unfoldable pub assert_recipe_caps : RecipePolicySource → Option Workload → Result (Unit {0})
assert_recipe_caps recipe none = ok tt
assert_recipe_caps recipe (some w) = do
  cap "concurrency" w.concurrency recipe.max_concurrency
  cap "steps" w.steps recipe.max_steps
  cap "sandboxMinutes" w.sandbox_minutes recipe.max_sandbox_minutes

unfoldable pub is_blank : String → Bool
unfolding trim
is_blank s = elim (trim (codes s)) [ [] ↦ true | _ ∷ _ ↦ false ]

abbrev pub given_blank : Option String → Bool
given_blank none = false
given_blank (some s) = is_blank s

abbrev pub missing_key : Option String → Bool
missing_key none = true
missing_key (some s) = s === "" || is_blank s

module _ (config : QueueConfig) (find_version : RecipeRef → Option PinnedRecipe)
    (find_recipe_by_name : String → Option ℕ → Option RecipePolicySource) where
  unfoldable pub resolve_recipe_policy_source :
      RunRequest → Option RecipeRef → Result RecipePolicySource
  unfolding parse_int assert_allowed_queue as_positive_integer
  resolve_recipe_policy_source req (some ref) = do
    refuse_if (overrides_name req.recipe_name ref.id)
        ("recipeName override mismatch for " <> (ref.id <> ("@" <> ref.v)))
    refuse_if (is_some req.recipe_version)
        "recipeVersion override is not allowed for pinned recipeRef"
    pinned_source ref (find_version ref)
  resolve_recipe_policy_source req none =
      let name : String = req.recipe_name or_default "compile-default" in
      named_source name (find_recipe_by_name name req.recipe_version)

  -- What follows the choice of the queue.
  unfoldable pub finish_policy :
      RunRequest → Bool → RecipePolicySource → String → Result ResolvedQueuePolicy
  unfolding is_blank assert_recipe_caps as_policy_error is_partitioned_queue
      is_priority_enabled_queue
  finish_policy req is_parent recipe queue = do
    as_policy_error (assert_ingress_budget req.budget req.workload req.timeout_ms)
    assert_recipe_caps recipe req.workload
    refuse_if (given_blank req.tenant_id) "tenantId cannot be blank"
    refuse_if (given_blank req.task_key) "taskKey cannot be blank"
    refuse_if
        ((is_partitioned_queue config queue || (is_parent && is_partitioned_queue config "intentQ"))
          && missing_key req.queue_partition_key)
        ("queuePartitionKey is required for partitioned operations (queue: "
          <> (queue <> (", isParent: " <> ((if is_parent then "true" else "false") <> ")"))))
    refuse_if (not (is_priority_enabled_queue config queue) && is_some req.priority)
        ("priority disabled for queue: " <> queue)
    let deduplication_id : Option String = req.deduplication_id or_else req.task_key in
        (let priority : Option ℕ =
            if is_priority_enabled_queue config queue
            then some (resolve_lane_priority req.lane req.priority)
            else none in
          (assert_dedupe_or_priority_edge deduplication_id priority
            >> ok (record {
              queue_name = queue;
              priority = priority;
              deduplication_id = deduplication_id;
              timeout_ms = req.timeout_ms;
              queue_partition_key = req.queue_partition_key;
              recipe_name = recipe.name;
              recipe_version = recipe.version;
            })))

  unfoldable pub resolve_queue_policy :
      RunRequest → Bool → Option RecipeRef → Result ResolvedQueuePolicy
  unfolding resolve_recipe_policy_source finish_policy assert_allowed_queue
  resolve_queue_policy req is_parent recipe_ref = do
    recipe ← resolve_recipe_policy_source req recipe_ref
    let queue : String = req.queue_name or_default recipe.queue_name in
        (assert_allowed_queue queue
          >> refuse_if (is_parent && not (queue === "intentQ"))
              ("parent intent workflow must use intentQ (got " <> (queue <> ")"))
          >> finish_policy req is_parent recipe queue)
