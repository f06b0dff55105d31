-- ===== src/Execution/Tasks.antt =====
-- The sandbox tasks of a decision: ExecuteStepImpl of src/workflow/steps/execute.step.ts, with
-- src/workflow/task-key.ts. The validator of a build's output is a parameter.
use sisu_kodo.Prelude.{
  ℕ, String, Bool, Option, none, some, List, [], ◌∷◌, ◌===◌, map, ◌<>◌, if◌then◌else◌,
}
use sisu_kodo.Prelude.Json.{Json, str, obj, Fields, end, field}
use sisu_kodo.Failure.{plain, Result, ok, err, ◌>>=◌}
use sisu_kodo.Hash.{Platform, sha256}
use sisu_kodo.Sandbox.{SbxReq}
use sisu_kodo.Sandbox.Templates.{ResolvedSbxTemplate, hot, cold}

pub record BuildOutput : Type 0 where
  pub tests : List String
  pub test_command : String

-- The output that the agent gave, if it gave one.
pub record Decision : Type 0 where
  pub structured : Option Json

pub record ExecutionConfig : Type 0 where
  pub sbx_default_timeout_ms : ℕ
  pub sbx_default_net : Bool

pub record TaskContext : Type 0 where
  pub intent_id : String
  pub run_id : String

abbrev pub template_key : ResolvedSbxTemplate → String
template_key (hot id key deps ref) = key
template_key (cold env_ref key deps ref reason) = key

abbrev pub template_ref : ResolvedSbxTemplate → String
template_ref (hot id key deps ref) = id
template_ref (cold env_ref key deps ref reason) = env_ref

abbrev deps_hash : ResolvedSbxTemplate → String
deps_hash (hot id key deps ref) = deps
deps_hash (cold env_ref key deps ref reason) = deps

abbrev env_ref_of : ResolvedSbxTemplate → String
env_ref_of (hot id key deps ref) = "local-node-24"
env_ref_of (cold env_ref key deps ref reason) = env_ref

abbrev template_id : ResolvedSbxTemplate → Option String
template_id (hot id key deps ref) = some id
template_id (cold env_ref key deps ref reason) = none

-- The value that a task's key is the hash of.
abbrev pub task_key_input : TaskContext → String → Fields → Json
task_key_input ctx step_id normalized_req = obj (
    field "intentId" (str ctx.intent_id) (
      field "runId" (str ctx.run_id)
        (field "stepId" (str step_id) (field "normalizedReq" (obj normalized_req) end))))

abbrev pub template_fields : ResolvedSbxTemplate → Fields
template_fields template =
    field "templateKey" (str (template_key template))
      (field "templateRef" (str (template_ref template)) end)

module _ (p : Platform) (assert_build_output : Json → Result BuildOutput) (cfg : ExecutionConfig)
    (ctx : TaskContext) where
  unfoldable pub build_task_key : String → Fields → String
  build_task_key step_id normalized_req = sha256 p (task_key_input ctx step_id normalized_req)

  abbrev pub checked_command : BuildOutput → Result BuildOutput
  checked_command output =
      if output.test_command === ""
      then err (plain "Missing test_command in Decision; rejecting unsafe execution.")
      else ok output

  -- The output that is validated, with its command.
  unfoldable pub resolve_command : Decision → Result BuildOutput
  resolve_command decision = elim decision.structured [
    | none ↦ err (plain "Missing structured output in Decision; rejecting unsafe execution.")
    | some value ↦ assert_build_output value >>= checked_command
  ]

  unfoldable pub build_request : String → String → ResolvedSbxTemplate → SbxReq
  unfolding build_task_key
  build_request command step_id template = record {
    env_ref = env_ref_of template;
    template_id = template_id template;
    template_key = some (template_key template);
    deps_hash = some (deps_hash template);
    cmd = command;
    files_in = [];
    env = [];
    workdir = none;
    timeout_ms = cfg.sbx_default_timeout_ms;
    cpu = 1;
    mem_mb = 512;
    net = cfg.sbx_default_net;
    task_key = build_task_key step_id (field "cmd" (str command) (template_fields template));
  }

  unfoldable pub test_request : String → ResolvedSbxTemplate → String → SbxReq
  unfolding build_request
  test_request command template test = record (build_request command "ExecuteST" template) {
    cmd = command <> (" " <> test);
    task_key =
        build_task_key "ExecuteST"
          (field "cmd" (str command) (field "test" (str test) (template_fields template)));
  }

  -- One task for the command, or one for each test.
  unfoldable pub requests_for : String → ResolvedSbxTemplate → List String → List SbxReq
  unfolding test_request
  requests_for command template [] = build_request command "ExecuteST" template ∷ []
  requests_for command template (test ∷ tests) = map (test_request command template) (test ∷ tests)

  unfoldable pub build_tasks : Result ResolvedSbxTemplate → Decision → Result (List SbxReq)
  build_tasks resolved decision = do
    output ← resolve_command decision
    template ← resolved
    ok (requests_for output.test_command template output.tests)
