-- ===== src/Start/Options.antt =====
-- What the queue is told when a run is enqueued: src/workflow/intent-enqueue.ts.
use sisu_kodo.Prelude.{
  ℕ, String, Bool, true, false, not, ◌||◌, Option, none, some, ◌===◌, ◌≡◌, refl, sym, ap, ◌∙◌,
  arith, eq_iff, Bool-cases, inl, inr, if◌then◌else◌, ◌or_default◌,
}
use sisu_kodo.Failure.{ok}
use sisu_kodo.Queue.{
  QueueConfig, ResolvedQueuePolicy, RunRequest, RecipeRef, PinnedRecipe, RecipePolicySource,
  is_partitioned_queue, is_allowed_queue, missing_key, resolve_queue_policy,
}
use sisu_kodo.Queue.Accepted.{Sound, resolve_queue_policy-Sound}

pub record WorkflowOptions : Type 0 where
  pub timeout_ms : Option ℕ
  pub deduplication_id : Option String
  pub priority : Option ℕ
  pub queue_name : Option String
  pub queue_partition_key : Option String

pub record EnqueueOptions : Type 0 where
  pub deduplication_id : Option String
  pub priority : Option ℕ
  pub queue_partition_key : Option String

-- What `DBOS.startWorkflow` is given.
pub record RunConfig : Type 0 where
  pub workflow_id : String
  pub queue_name : String
  pub timeout_ms : Option ℕ
  pub enqueue_options : EnqueueOptions

-- What `DBOSClient.enqueue` is given.
pub record ClientRunConfig : Type 0 where
  pub queue_name : String
  pub workflow_class_name : String
  pub workflow_name : String
  pub workflow_id : String
  pub workflow_timeout_ms : Option ℕ
  pub deduplication_id : Option String
  pub priority : Option ℕ
  pub queue_partition_key : Option String
  pub app_version : Option String

abbrev pub no_options : WorkflowOptions
no_options = record {
  timeout_ms = none;
  deduplication_id = none;
  priority = none;
  queue_name = none;
  queue_partition_key = none;
}

module _ (config : QueueConfig) where
  -- `!queueName || !isPartitionedQueue(queueName)`
  abbrev pub unpartitioned : Option String → Bool
  unpartitioned none = true
  unpartitioned (some queue) = queue === "" || not (is_partitioned_queue config queue)

  unfoldable pub resolve_queue_partition_key : Option String → Option String → Option String
  resolve_queue_partition_key queue key = if unpartitioned queue then none else key

  unfoldable pub resolve_deduplication_id : Option String → Option String → Option String
  resolve_deduplication_id queue deduplication_id =
      if unpartitioned queue then deduplication_id else none

  unfoldable pub to_enqueue_options : Option WorkflowOptions → EnqueueOptions
  unfolding resolve_queue_partition_key resolve_deduplication_id
  to_enqueue_options options =
      let o : WorkflowOptions = options or_default no_options in
      record {
        deduplication_id = resolve_deduplication_id o.queue_name o.deduplication_id;
        priority = o.priority;
        queue_partition_key = resolve_queue_partition_key o.queue_name o.queue_partition_key;
      }

  unfoldable pub to_intent_run_workflow_options : ResolvedQueuePolicy → WorkflowOptions
  unfolding resolve_queue_partition_key resolve_deduplication_id
  to_intent_run_workflow_options policy = record {
    queue_name = some policy.queue_name;
    priority = policy.priority;
    deduplication_id = resolve_deduplication_id (some policy.queue_name) policy.deduplication_id;
    timeout_ms = policy.timeout_ms;
    queue_partition_key =
        resolve_queue_partition_key (some policy.queue_name) policy.queue_partition_key;
  }

  unfoldable pub build_dbos_intent_run_config : String → Option WorkflowOptions → RunConfig
  unfolding to_enqueue_options
  build_dbos_intent_run_config id options =
      let o : WorkflowOptions = options or_default no_options in
      record {
        workflow_id = id;
        queue_name = o.queue_name or_default "intentQ";
        timeout_ms = o.timeout_ms;
        enqueue_options = to_enqueue_options options;
      }

  unfoldable pub build_dbos_client_intent_run_config :
      String → Option WorkflowOptions → Option String → ClientRunConfig
  unfolding to_enqueue_options
  build_dbos_client_intent_run_config id options app_version =
      let o : WorkflowOptions = options or_default no_options in
      let enqueue : EnqueueOptions = to_enqueue_options options in
      record {
        queue_name = o.queue_name or_default "intentQ";
        workflow_class_name = "IntentWorkflow";
        workflow_name = "run";
        workflow_id = id;
        workflow_timeout_ms = o.timeout_ms;
        deduplication_id = enqueue.deduplication_id;
        priority = enqueue.priority;
        queue_partition_key = enqueue.queue_partition_key;
        app_version = app_version;
      }

  nonempty : (queue : String) → is_allowed_queue queue ≡ true → queue === "" ≡ false
  unfolding is_allowed_queue
  nonempty queue h = elim (Bool-cases (queue === "")) [
    | inl blank ↦ absurd (impossible (sym (ap is_allowed_queue ((eq_iff queue "").0 blank)) ∙ h))
    | inr named ↦ named
  ]
    where
      impossible : false ≡ true → ⊥
      impossible e = cc

  keyed_once :
      (policy : ResolvedQueuePolicy)
      → policy.queue_name === "" ≡ false
      → is_partitioned_queue config policy.queue_name ≡ true
      → missing_key policy.queue_partition_key ≡ false
      → missing_key
          (to_enqueue_options (some (to_intent_run_workflow_options policy))).queue_partition_key
        ≡ false
  unfolding to_enqueue_options to_intent_run_workflow_options resolve_queue_partition_key
  keyed_once policy n p m = rw (n, p) m

  undeduplicated_once :
      (policy : ResolvedQueuePolicy)
      → policy.queue_name === "" ≡ false
      → is_partitioned_queue config policy.queue_name ≡ true
      → (to_enqueue_options (some (to_intent_run_workflow_options policy))).deduplication_id ≡ none
  unfolding to_enqueue_options to_intent_run_workflow_options resolve_deduplication_id
  undeduplicated_once policy n p = rw (n, p) refl

  unkeyed_once :
      (policy : ResolvedQueuePolicy)
      → is_partitioned_queue config policy.queue_name ≡ false
      → (to_enqueue_options (some (to_intent_run_workflow_options policy))).queue_partition_key
        ≡ none
  unfolding to_enqueue_options to_intent_run_workflow_options resolve_queue_partition_key
  unkeyed_once policy p = ground (arith, p)

  -- What the queue requires of an enqueued run.
  pub record Enqueueable (queue : String) (o : EnqueueOptions) : Type 0 where
    pub keyed : is_partitioned_queue config queue ≡ true → missing_key o.queue_partition_key ≡ false
    pub undeduplicated : is_partitioned_queue config queue ≡ true → o.deduplication_id ≡ none
    pub unkeyed : is_partitioned_queue config queue ≡ false → o.queue_partition_key ≡ none

  module _ (find_version : RecipeRef → Option PinnedRecipe)
      (find_recipe_by_name : String → Option ℕ → Option RecipePolicySource) where
    -- A request whose policy is resolved is enqueued the way its queue allows: a partitioned queue
    -- gets a key that is not blank and no deduplication id, any other queue gets no key.
    pub resolved-Enqueueable :
        (req : RunRequest) (is_parent : Bool) (ref : Option RecipeRef) (id : String)
        {policy : ResolvedQueuePolicy}
        → resolve_queue_policy config find_version find_recipe_by_name req is_parent ref ≡ ok policy
        → Enqueueable policy.queue_name
            (build_dbos_intent_run_config id
              (some (to_intent_run_workflow_options policy))).enqueue_options
    unfolding build_dbos_intent_run_config to_enqueue_options to_intent_run_workflow_options
        resolve_queue_partition_key resolve_deduplication_id
    resolved-Enqueueable req is_parent ref id {policy} h = record {
      keyed =
          λ p. keyed_once policy (nonempty policy.queue_name sound.allowed) p (sound.partitioned p);
      undeduplicated = λ p. undeduplicated_once policy (nonempty policy.queue_name sound.allowed) p;
      unkeyed = λ p. unkeyed_once policy p;
    }
      where
        sound : Sound config req is_parent policy
        sound =
            resolve_queue_policy-Sound config find_version find_recipe_by_name req is_parent ref
              policy h

  -- The engine and the remote client enqueue a run alike.
  pub client-engine_agree :
      (id : String) (options : Option WorkflowOptions) (app_version : Option String)
      → let engine = build_dbos_intent_run_config id options in
        let client = build_dbos_client_intent_run_config id options app_version in
        (client.workflow_id ≡ engine.workflow_id)
        × (client.queue_name ≡ engine.queue_name)
        × (client.workflow_timeout_ms ≡ engine.timeout_ms)
        × (record {
          deduplication_id = client.deduplication_id;
          priority = client.priority;
          queue_partition_key = client.queue_partition_key;
        }
            ≡ engine.enqueue_options)
  unfolding build_dbos_intent_run_config build_dbos_client_intent_run_config
  client-engine_agree id options app_version = (refl, refl, refl, refl)
