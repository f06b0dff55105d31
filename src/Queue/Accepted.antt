-- ===== src/Queue/Accepted.antt =====
-- What holds of every policy that is resolved.
use sisu_kodo.Prelude.{
  ℕ, Bool, true, false, not, ◌&&◌, ◌||◌, Option, none, some, String, ◌===◌, eq_iff, is_some, ◌≡◌,
  refl, ap, if◌then◌else◌, ◌or_default◌, ◌or_else◌,
}
use sisu_kodo.Failure.{then_ok, bind_ok, value_or, ok, ◌>>◌}
use sisu_kodo.Budget.{assert_ingress_budget}
use sisu_kodo.Queue.{
  RunRequest, RecipeRef, PinnedRecipe, RecipePolicySource, QueueConfig, ResolvedQueuePolicy,
  refuse_if, is_partitioned_queue, is_priority_enabled_queue, blank_or_missing, is_allowed_queue,
  assert_allowed_queue, missing_key, assert_recipe_caps, finish_policy,
  resolve_recipe_policy_source, resolve_queue_policy, resolve_lane_priority, as_policy_error,
  given_blank, assert_dedupe_or_priority_edge,
}

not_refused : (c : Bool) (m : String) → refuse_if c m ≡ ok tt → c ≡ false
not_refused true m h = cc
not_refused false m h = refl

-- What the program promises of a policy.
pub record Sound (config : QueueConfig) (req : RunRequest) (is_parent : Bool)
    (policy : ResolvedQueuePolicy) : Type 0 where
  pub allowed : is_allowed_queue policy.queue_name ≡ true
  pub parent_queue : is_parent ≡ true → policy.queue_name ≡ "intentQ"
  pub partitioned :
      is_partitioned_queue config policy.queue_name ≡ true
      → missing_key policy.queue_partition_key ≡ false
  pub edge : blank_or_missing policy.deduplication_id && not (is_some policy.priority) ≡ false
  pub unprioritized :
      is_priority_enabled_queue config policy.queue_name ≡ false
      → (policy.priority ≡ none) × (req.priority ≡ none)

forced : (p q : Bool) → p && not q ≡ false → p ≡ true → q ≡ true
forced true true h k = refl
forced true false h k = cc
forced false q h k = cc

guarded : (a b c : Bool) → (a || b) && c ≡ false → a ≡ true → c ≡ false
guarded true b c h k = h
guarded false b c h k = cc

unset : (o : Option ℕ) → is_some o ≡ false → o ≡ none
unset none h = refl
unset (some n) h = cc

allowed_of : (b : Bool) → not b ≡ false → b ≡ true
allowed_of true h = refl
allowed_of false h = cc

finish_policy-Sound :
    (config : QueueConfig) (find_version : RecipeRef → Option PinnedRecipe)
    (find_recipe_by_name : String → Option ℕ → Option RecipePolicySource) (req : RunRequest)
    (is_parent : Bool) (recipe : RecipePolicySource) (queue : String) (policy : ResolvedQueuePolicy)
    → is_allowed_queue queue ≡ true
    → is_parent && not (queue === "intentQ") ≡ false
    → finish_policy config find_version find_recipe_by_name req is_parent recipe queue ≡ ok policy
    → Sound config req is_parent policy
unfolding finish_policy assert_dedupe_or_priority_edge
finish_policy-Sound config find_version find_recipe_by_name req is_parent recipe queue policy legal
      parent h =
    let s1 =
      then_ok (as_policy_error (assert_ingress_budget req.budget req.workload req.timeout_ms)) _
        policy h in
    let s2 = then_ok (assert_recipe_caps recipe req.workload) _ policy s1.1 in
    let s3 = then_ok (refuse_if (given_blank req.tenant_id) _) _ policy s2.1 in
    let s4 = then_ok (refuse_if (given_blank req.task_key) _) _ policy s3.1 in
    let s5 =
      then_ok
        (refuse_if
          ((is_partitioned_queue config queue
              || (is_parent && is_partitioned_queue config "intentQ"))
            && missing_key req.queue_partition_key)
          _)
        _ policy s4.1 in
    let s6 =
      then_ok (refuse_if (not (is_priority_enabled_queue config queue) && is_some req.priority) _) _
        policy s5.1 in
    let priority : Option ℕ =
      if is_priority_enabled_queue config queue
      then some (resolve_lane_priority req.lane req.priority)
      else none in
    let s7 =
      then_ok
        (refuse_if
          (blank_or_missing (req.deduplication_id or_else req.task_key) && not (is_some priority))
          _)
        _ policy s6.1 in
    rw (← ap (value_or policy) s7.1) (record {
      allowed = legal;
      parent_queue =
          λ p. (eq_iff queue "intentQ").0 (forced is_parent (queue === "intentQ") parent p);
      partitioned = guarded _ _ _ (not_refused _ _ s5.0);
      edge = not_refused _ _ s7.0;
      unprioritized = λ off. (rw off refl, unset req.priority (rw off at (not_refused _ _ s6.0)));
    })

pub resolve_queue_policy-Sound :
    (config : QueueConfig) (find_version : RecipeRef → Option PinnedRecipe)
    (find_recipe_by_name : String → Option ℕ → Option RecipePolicySource) (req : RunRequest)
    (is_parent : Bool) (recipe_ref : Option RecipeRef) (policy : ResolvedQueuePolicy)
    → resolve_queue_policy config find_version find_recipe_by_name req is_parent recipe_ref
      ≡ ok policy
    → Sound config req is_parent policy
unfolding resolve_queue_policy assert_allowed_queue
resolve_queue_policy-Sound config find_version find_recipe_by_name req is_parent recipe_ref policy
      h =
    let record_ =
      bind_ok (resolve_recipe_policy_source config find_version find_recipe_by_name req recipe_ref)
        _ policy h in
    let queue : String = req.queue_name or_default record_.0.queue_name in
    let s1 =
      then_ok
        (refuse_if (not (is_allowed_queue queue)) _
          >> refuse_if (is_parent && not (queue === "intentQ")) _)
        _ policy record_.2 in
    let s2 = then_ok (refuse_if (not (is_allowed_queue queue)) _) _ tt s1.0 in
    finish_policy-Sound config find_version find_recipe_by_name req is_parent record_.0 queue policy
      (allowed_of (is_allowed_queue queue) (not_refused _ _ s2.0)) (not_refused _ _ s2.1) s1.1
