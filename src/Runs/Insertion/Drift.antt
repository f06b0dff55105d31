-- ===== src/Runs/Insertion/Drift.antt =====
-- When a request agrees with the run of its workflow: runIdentityDriftFields of src/db/runRepo.ts.
use sisu_kodo.Prelude.{
  String, Option, none, some, Bool, true, false, List, [], ◌∷◌, ◌≡◌, ◌↔◌, refl, arith, opt_eq_iff,
  eq_iff,
}
use sisu_kodo.Budget.{RunBudget}
use sisu_kodo.Runs.{RunRow}
use sisu_kodo.Runs.Insertion.{NewRun, budget_eq, push_unless, run_identity_drift_fields}

-- Whose run it is: the fields on which a replay must agree.
pub record SameIdentity (existing : RunRow) (incoming : NewRun) : Type 0 where
  pub id : existing.id ≡ incoming.id
  pub intent_id : existing.intent_id ≡ incoming.intent_id
  pub intent_hash : existing.intent_hash ≡ incoming.intent_hash
  pub recipe_id : existing.recipe_id ≡ incoming.recipe_id
  pub recipe_v : existing.recipe_v ≡ incoming.recipe_v
  pub recipe_hash : existing.recipe_hash ≡ incoming.recipe_hash
  pub trace_id : existing.trace_id ≡ incoming.trace_id
  pub tenant_id : existing.tenant_id ≡ incoming.tenant_id
  pub queue_partition_key : existing.queue_partition_key ≡ incoming.queue_partition_key
  pub budget : existing.budget ≡ incoming.budget

budget_eq_iff : (a b : Option RunBudget) → (budget_eq a b ≡ true) ↔ (a ≡ b)
budget_eq_iff none none = (λ _. refl, λ _. refl)
budget_eq_iff none (some b) = (λ h. cc, λ h. cc)
budget_eq_iff (some a) none = (λ h. cc, λ h. cc)
budget_eq_iff (some a) (some b) = (λ h. ground arith, λ h. ground arith)

push_unless-nil :
    (agrees : Bool) (field : String) (rest : List String)
    → (push_unless agrees field rest ≡ []) ↔ ((agrees ≡ true) × (rest ≡ []))
push_unless-nil true field rest = (λ h. (refl, h), λ h. h.1)
push_unless-nil false field rest = (λ h. cc, λ h. cc)

-- No field drifted exactly when the identities agree.
pub run_identity_drift_iff :
    (existing : RunRow) (incoming : NewRun)
    → (run_identity_drift_fields existing incoming ≡ []) ↔ SameIdentity existing incoming
unfolding run_identity_drift_fields
run_identity_drift_iff a b = (forward, backward)
  where
    forward : run_identity_drift_fields a b ≡ [] → SameIdentity a b
    forward h =
        let p0 = (push_unless-nil _ _ _).0 h in
        let p1 = (push_unless-nil _ _ _).0 p0.1 in
        let p2 = (push_unless-nil _ _ _).0 p1.1 in
        let p3 = (push_unless-nil _ _ _).0 p2.1 in
        let p4 = (push_unless-nil _ _ _).0 p3.1 in
        let p5 = (push_unless-nil _ _ _).0 p4.1 in
        let p6 = (push_unless-nil _ _ _).0 p5.1 in
        let p7 = (push_unless-nil _ _ _).0 p6.1 in
        let p8 = (push_unless-nil _ _ _).0 p7.1 in
        let p9 = (push_unless-nil _ _ _).0 p8.1 in
        record {
          id = (eq_iff a.id b.id).0 p0.0;
          intent_id = (eq_iff a.intent_id b.intent_id).0 p1.0;
          intent_hash = (opt_eq_iff a.intent_hash b.intent_hash).0 p2.0;
          recipe_id = (opt_eq_iff a.recipe_id b.recipe_id).0 p3.0;
          recipe_v = (opt_eq_iff a.recipe_v b.recipe_v).0 p4.0;
          recipe_hash = (opt_eq_iff a.recipe_hash b.recipe_hash).0 p5.0;
          trace_id = (opt_eq_iff a.trace_id b.trace_id).0 p6.0;
          tenant_id = (opt_eq_iff a.tenant_id b.tenant_id).0 p7.0;
          queue_partition_key = (opt_eq_iff a.queue_partition_key b.queue_partition_key).0 p8.0;
          budget = (budget_eq_iff a.budget b.budget).0 p9.0;
        }

    backward : SameIdentity a b → run_identity_drift_fields a b ≡ []
    backward s = (push_unless-nil _ _ _).1 (
      (eq_iff a.id b.id).1 s.id,
      (push_unless-nil _ _ _).1 (
        (eq_iff a.intent_id b.intent_id).1 s.intent_id,
        (push_unless-nil _ _ _).1 (
          (opt_eq_iff a.intent_hash b.intent_hash).1 s.intent_hash,
          (push_unless-nil _ _ _).1 (
            (opt_eq_iff a.recipe_id b.recipe_id).1 s.recipe_id,
            (push_unless-nil _ _ _).1 (
              (opt_eq_iff a.recipe_v b.recipe_v).1 s.recipe_v,
              (push_unless-nil _ _ _).1 (
                (opt_eq_iff a.recipe_hash b.recipe_hash).1 s.recipe_hash,
                (push_unless-nil _ _ _).1 (
                  (opt_eq_iff a.trace_id b.trace_id).1 s.trace_id,
                  (push_unless-nil _ _ _).1 (
                    (opt_eq_iff a.tenant_id b.tenant_id).1 s.tenant_id,
                    (push_unless-nil _ _ _).1 (
                      (opt_eq_iff a.queue_partition_key b.queue_partition_key).1
                          s.queue_partition_key,
                      (push_unless-nil _ _ _).1
                          ((budget_eq_iff a.budget b.budget).1 s.budget, refl),
                    ),
                  ),
                ),
              ),
            ),
          ),
        ),
      ),
    )

-- The names whose statements fail, in order.
pub data Failing : List (String × Type 0) → List String → Type 1 where
  no_more : Failing [] []
  holds :
      {name : String} {P : Type 0} {ps : List (String × Type 0)} {names : List String}
      → P
      → Failing ps names
      → Failing ((name, P) ∷ ps) names
  fails :
      {name : String} {P : Type 0} {ps : List (String × Type 0)} {names : List String}
      → ¬ P
      → Failing ps names
      → Failing ((name, P) ∷ ps) (name ∷ names)

-- What a replay must agree on, under the names of the columns.
abbrev pub agreements : RunRow → NewRun → List (String × Type 0)
agreements a b =
    ("id", a.id ≡ b.id)
    ∷ ("intent_id", a.intent_id ≡ b.intent_id)
    ∷ ("intent_hash", a.intent_hash ≡ b.intent_hash)
    ∷ ("recipe_id", a.recipe_id ≡ b.recipe_id)
    ∷ ("recipe_v", a.recipe_v ≡ b.recipe_v)
    ∷ ("recipe_hash", a.recipe_hash ≡ b.recipe_hash)
    ∷ ("trace_id", a.trace_id ≡ b.trace_id)
    ∷ ("tenant_id", a.tenant_id ≡ b.tenant_id)
    ∷ ("queue_partition_key", a.queue_partition_key ≡ b.queue_partition_key)
    ∷ ("budget", a.budget ≡ b.budget)
    ∷ []

push_unless-Failing :
    {P : Type 0} {ps : List (String × Type 0)} {names : List String} (agrees : Bool) (name : String)
    → (agrees ≡ true) ↔ P
    → Failing ps names
    → Failing ((name, P) ∷ ps) (push_unless agrees name names)
push_unless-Failing true name h f = holds (h.0 refl) f
push_unless-Failing false name h f = fails (λ p. let e = h.1 p in cc) f

pub run_identity_drift_fields-Failing :
    (a : RunRow) (b : NewRun) → Failing (agreements a b) (run_identity_drift_fields a b)
unfolding run_identity_drift_fields
run_identity_drift_fields-Failing a b = push_unless-Failing _ "id" (eq_iff a.id b.id) (
    push_unless-Failing _ "intent_id" (eq_iff a.intent_id b.intent_id) (
      push_unless-Failing _ "intent_hash" (opt_eq_iff a.intent_hash b.intent_hash) (
        push_unless-Failing _ "recipe_id" (opt_eq_iff a.recipe_id b.recipe_id) (
          push_unless-Failing _ "recipe_v" (opt_eq_iff a.recipe_v b.recipe_v) (
            push_unless-Failing _ "recipe_hash" (opt_eq_iff a.recipe_hash b.recipe_hash) (
              push_unless-Failing _ "trace_id" (opt_eq_iff a.trace_id b.trace_id) (
                push_unless-Failing _ "tenant_id" (opt_eq_iff a.tenant_id b.tenant_id) (
                  push_unless-Failing _ "queue_partition_key"
                    (opt_eq_iff a.queue_partition_key b.queue_partition_key)
                    (push_unless-Failing _ "budget" (budget_eq_iff a.budget b.budget)
                      no_more)))))))))
