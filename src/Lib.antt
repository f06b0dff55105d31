-- ===== src/Lib.antt =====
-- A verification library for sisu-kodo, a durable runner of intents: a request starts a run, the run
-- compiles its intent, applies a patch plan, waits for a person's approval, fans tasks out to
-- sandboxes and merges their results, under a budget.
--
-- Which file models which part (paths from the repository's root):
--   Failure, Failure/Async, /Repeated
--                            thrown errors as values, async code as a function of the world that keeps
--                            what was done before a throw, and loops of it that can be run again.
--   Budget                   src/workflow/budget-guard.ts: assertIngressBudget and the runtime guards.
--   Hash, Hash/Order         src/lib/hash.ts: canonical JSON and SHA-256, and values up to the order of
--                            their keys.
--   Sandbox                  src/contracts/sbx/sbx-res.schema.ts, and mergeResults of
--                            src/workflow/wf/run-intent.wf.ts.
--   Runs, Runs/Insertion     src/db/runRepo.ts: updateRunStatus, updateRunOps and the lookups;
--                            insertRun with its drift check. A table is the list of its rows, and the
--                            CASE of an update is a function of the row.
--   Patch                    src/db/patchHistoryRepo.ts, src/workflow/patch/reversible.ts, the loop of
--                            src/workflow/steps/apply-patch.step.ts and rollbackAppliedPatches of
--                            src/workflow/steps/run-intent.steps.ts, over files and the history table.
--   Hitl/Topic, Hitl/Keys    src/lib/hitl-topic.ts, src/workflow/hitl/gate-key.ts and keys.ts.
--   Hitl/Decision            src/workflow/hitl/decision-payload.ts.
--   Hitl/Interactions        src/db/humanGateRepo.ts: gates and interactions on record.
--   Hitl/View                src/server/gate-view.ts.
--   Workflow                 the port IntentWorkflowSteps of src/workflow/wf/run-intent.wf.ts, and the
--                            process: the store behind the port, the trace of the calls, newest first,
--                            and the crash injection's state.
--   Workflow/Flags           src/intent-compiler/runtime-flags.ts.
--   Workflow/Gates           src/workflow/wf/hitl-gates.ts: awaitHuman and approve.
--   Workflow/Plan, /Run, /Repair
--                            src/workflow/wf/run-intent.wf.ts: approval of the plan and fan-out,
--                            runIntentWorkflow, repairRunWorkflow.
--   Workflow/Traces          triples on code that may throw, for properties of the trace.
--   Queue                    src/workflow/queue-policy.ts and src/workflow/dbos/queues.ts.
--   Start, Start/Options     src/workflow/start-intent.ts and src/workflow/intent-enqueue.ts: the queue
--                            policy, the insertion of the run and the engine, a parameter, composed.
--   Engine                   src/workflow/engine-custom.ts: the tables, one function per statement, and
--                            the active set of a process. Engine/Steps interleaves processes statement
--                            by statement, with crashes; Engine/Stages is the view of a client, and
--                            Engine/Waiting the polling for completion.
--   Polling                  waitUntil of src/lib/time.ts.
--   Runs/Steps               insertRunStep of src/db/runRepo.ts, src/workflow/steps/step-counter.ts and
--                            runTrackedStep of src/workflow/steps/run-intent.steps.ts.
--   Artifacts                src/db/artifactRepo.ts (insertArtifact) and src/lib/artifact-uri.ts.
--   Artifacts/Saving         src/workflow/steps/save-artifacts.step.ts: the entries of a result and their
--                            index.
--   Oc                       src/oc: sessions, the child-session guard, the retry after a stall, and
--                            promptStructured of wrapper.ts with its cache and the ledger of
--                            src/db/opencodeCallRepo.ts.
--   Ops                      src/server/ops-api.ts: cancel, resume, fork and the operator intents.
--   Sandbox/Provider, /Templates
--                            src/sbx/failure.ts, factory.ts and template-resolver.ts.
--   Recipes, Recipes/Tables  src/db/recipeRepo.ts and src/db/fixtureRepo.ts: versions, fixtures and
--                            recipes as tables; insertion, nomination, promotion and import as
--                            transactions. The modules below them are on Growth, Imports, Promotion,
--                            Lifecycle and Active recipes.
--   Execution/Tasks          ExecuteStepImpl.buildTasks of src/workflow/steps/execute.step.ts, with
--                            src/workflow/task-key.ts.
--   Execution/Receipts       src/db/mockReceiptRepo.ts, and persistExecuteReceipt and saveExecuteStep of
--                            src/workflow/steps/run-intent.steps.ts.
--   Evaluation/Checks, /Distance
--                            src/eval/runner.ts: the checks of a recipe and the bounded edit distance.
--   Evaluation/Results       src/db/evalRepo.ts.
--   Evaluation/Inputs, /Run  src/eval/evaluate-run.ts, on the artifacts of Artifacts.
--                            The order in which the database returns artifacts of one index is any.
--   Repro/Scope              discoverDbosWorkflowScope of src/lib/repro.ts.
--   Prelude/Sorting          a stable sort, for the sorts by localeCompare.
--   Examples                 the theorems at concrete inputs.
--
-- Conventions. Recursion is structural everywhere but in the printing of a number, whose fuel is
-- one more than the number, which has no more digits than that, and in the polling loops, whose
-- fuel counts rounds: as many rounds as the timeout has intervals, and one more, are enough. The
-- search for a run's workflows has fuel for two rounds more than the status table has rows.
-- Numbers that cannot be negative are natural; attempts in results are integers. Strings are
-- native; text that is walked or built into a key is the list of its code points, and letters
-- outside ASCII have no case, but for the two that the guard of session keys maps to ASCII. The
-- runs of a Promise.all are put one after the other, and a call that fails does not keep the
-- others from being made. Code outside the repository's src is a parameter: the digest,
-- localeCompare, regular expressions, node:path, the length of JSON.stringify, the validators
-- compiled by ajv, and the operations of the port.
--
-- Not modelled: the durable-execution SDK and its bindings, the sandbox services, the SDK adapter and
-- the fixture files of the OpenCode client, HTTP handlers, sign-off pages, the user interface, scripts,
-- the snapshots that the scope of workflows is for, the step library of recipes, and most listing
-- queries of the repositories. They do I/O, or format what others have computed.
pub mod Prelude
pub mod Failure
pub mod Hash
pub mod Sandbox
pub mod Budget
pub mod Runs
pub mod Patch
pub mod Hitl
pub mod Workflow
pub mod Queue
pub mod Recipes
pub mod Engine
pub mod Polling
pub mod Start
pub mod Oc
pub mod Artifacts
pub mod Ops
pub mod Execution
pub mod Evaluation
pub mod Repro
pub mod Examples
