-- ===== src/Failure.antt =====
-- What the program throws, as values, and code that may throw.
-- Error classes: src/workflow/budget-guard.ts, src/workflow/wf/hitl-gates.ts,
-- src/lib/run-identity-conflict.ts, WorkflowError of
-- src/contracts/error.ts; every other class is its name and its message.
pub mod Async
pub mod Repeated
use sisu_kodo.Prelude.{◌≡◌, refl, ℕ, String, List, Text, ◌<>◌, decimal}

pub data BudgetMetric : Type 0 where
  max_fanout max_sbx_minutes max_artifacts_mb max_retries_per_step max_wall_clock_ms : BudgetMetric

pub data BudgetScope : Type 0 where
  ingress runtime : BudgetScope

pub data BudgetUnit : Type 0 where
  count minutes mb ms retries : BudgetUnit

pub record BudgetViolation : Type 0 where
  pub metric : BudgetMetric
  pub scope : BudgetScope
  pub limit : ℕ
  pub observed : ℕ
  pub unit : BudgetUnit

pub data HitlChaosPhase : Type 0 where
  a b c d : HitlChaosPhase

pub data Error : Type 0 where
  budget_guard : BudgetViolation → Error
  chaos_crash : HitlChaosPhase → String → Error
  identity_conflict : String → List String → Error
  invalid_gate_key : Text → Error
  workflow : String → String → Error
  named : String → String → Error
  plain : String → Error

pub data Result {ℓ} (A : Type ℓ) : Type ℓ where
  ok : A → Result A
  err : Error → Result A

abbrev pub metric_name : BudgetMetric → String
metric_name max_fanout = "maxFanout"
metric_name max_sbx_minutes = "maxSBXMinutes"
metric_name max_artifacts_mb = "maxArtifactsMB"
metric_name max_retries_per_step = "maxRetriesPerStep"
metric_name max_wall_clock_ms = "maxWallClockMS"

abbrev pub scope_name : BudgetScope → String
scope_name ingress = "ingress"
scope_name runtime = "runtime"

-- The message that `BudgetGuardError` gives itself.
unfoldable pub budget_message : BudgetViolation → String
budget_message v =
    "budget:"
    <> metric_name v.metric
    <> ": observed "
    <> decimal v.observed
    <> " > limit "
    <> decimal v.limit
    <> " ("
    <> scope_name v.scope
    <> ")"

abbrev phase_name : HitlChaosPhase → String
phase_name a = "a"
phase_name b = "b"
phase_name c = "c"
phase_name d = "d"

-- `error.message`
unfoldable pub message : Error → String
unfolding budget_message
message (budget_guard v) = budget_message v
message (chaos_crash p w) = "[CHAOS] simulated crash at phase " <> phase_name p
message (identity_conflict m fields) = m
message (invalid_gate_key key) = "invalid HITL gateKey"
message (workflow code m) = m
message (named name m) = m
message (plain m) = m

infixl 5 ◌>>=◌ ◌>>◌
abbrev pub ◌>>=◌ {ℓ κ} : {A : Type ℓ} {B : Type κ} → Result A → (A → Result B) → Result B
ok x >>= f = f x
err e >>= f = err e

abbrev pub ◌>>◌ {ℓ} : {B : Type ℓ} → Result (Unit {0}) → Result B → Result B
m >> k = m >>= λ _. k

-- A chain that succeeds has a first part that does.
pub bind_ok :
    {A B : Type 0} (m : Result A) (f : A → Result B) (y : B)
    → m >>= f ≡ ok y
    → (x : A) × (m ≡ ok x) × (f x ≡ ok y)
bind_ok (ok x) f y h = (x, refl, h)
bind_ok (err e) f y h = cc

pub then_ok :
    {B : Type 0} (m : Result (Unit {0})) (k : Result B) (y : B)
    → m >> k ≡ ok y
    → (m ≡ ok tt) × (k ≡ ok y)
then_ok (ok _) k y h = (refl, h)
then_ok (err e) k y h = cc

abbrev pub value_or : {A : Type 0} → A → Result A → A
value_or y (ok x) = x
value_or y (err e) = y
