-- ===== src/Ops/Refused.antt =====
-- Which forks are acknowledged: src/server/ops-api.ts.
use sisu_kodo.Prelude.{
  ℕ, ◌≤◌, ltb, leb, any, String, Bool, true, Option, none, some, List, [], ◌∷◌, ◌≡◌, ◌⊎◌, refl, sym,
  ap, ◌∙◌, arith, Bool-cases, inl, inr, if◌then◌else◌,
}
use sisu_kodo.Prelude.Json.{Json}
use sisu_kodo.Failure.{Error, Result, ok, err}
use sisu_kodo.Failure.Async.{Async, continue, pure, throw, ◌>>=◌, bind_returns}
use sisu_kodo.Ops.Intents.{OpIntentTag}
use sisu_kodo.Ops.{
  WorkflowOpsSummary, ForkRequest, Service, Office, not_found, serve, get_workflow_or_throw,
  fork_workflow, max_step,
}

-- A number up to the greatest step is 0 or at most one of the steps.
reached :
    (n : ℕ) (steps : List ℕ) → n ≤ max_step steps → (n ≡ 0) ⊎ (any (λ m. leb n m) steps ≡ true)
reached n [] h = inl (omega (arith, h))
reached n (s ∷ steps) h = elim (Bool-cases (leb n s)) [
  | inl below ↦ inr (ground (arith, below))
  | inr above ↦ elim (reached n steps (ground (arith, h, above))) [
    | inl z ↦ inl z
    | inr later ↦ inr (ground (arith, later, above))
  ]
]

module _ {S : Type 0} (digest : Json → String) (tag_digest : OpIntentTag → String) (pid : ℕ)
    (service : Service S) (persist : Bool) (now : ℕ) (tag : OpIntentTag) (o : Office S) where
  get_workflow-service :
      (get_workflow_or_throw service tag.target_workflow_id o).1.service
      ≡ (service.get_workflow tag.target_workflow_id o.service).1
  unfolding get_workflow_or_throw serve ◌>>=◌ pure throw
  get_workflow-service = go (service.get_workflow tag.target_workflow_id o.service).0
    where
      left : Office S
      left = record o { service = (service.get_workflow tag.target_workflow_id o.service).1 }

      go :
          (x : Result (Option WorkflowOpsSummary))
          → (continue {B = WorkflowOpsSummary} x
              (λ found. elim found [
                | none ↦ throw (not_found tag.target_workflow_id)
                | some workflow ↦ pure workflow
              ])
              left).1.service
            ≡ left.service
      go (ok none) = refl
      go (ok (some w)) = refl
      go (err e) = refl

  -- A fork that is acknowledged starts at step 0, or at a step no later than one of those that the
  -- service lists for the workflow after it was found.
  pub fork_workflow-bounded :
      (request : ForkRequest) {ack : String × String}
      → (fork_workflow digest tag_digest pid service persist now request tag o).0 ≡ ok ack
      → (steps : List ℕ) × ((service.list_workflow_steps tag.target_workflow_id
            (service.get_workflow tag.target_workflow_id o.service).1).0
          ≡ ok steps)
        × ((request.step_n ≡ 0) ⊎ (any (λ n. leb request.step_n n) steps ≡ true))
  unfolding fork_workflow serve throw
  fork_workflow-bounded request {ack} h =
      let (w, known, h1) =
        bind_returns (get_workflow_or_throw service tag.target_workflow_id) _ o h in
      let (steps, listed, h2) =
        bind_returns (serve (service.list_workflow_steps tag.target_workflow_id)) _ _ h1 in
      (
        steps,
        ap (λ x. (service.list_workflow_steps tag.target_workflow_id x).0)
              (sym get_workflow-service)
            ∙ listed,
        reached request.step_n steps (within steps _ _ _ h2),
      )
    where
      within :
          (steps : List ℕ) (m : Async (Office S) (String × String)) (e : Error) (o' : Office S)
          → ((if ltb (max_step steps) request.step_n then throw e else m) o').0 ≡ ok ack
          → request.step_n ≤ max_step steps
      within steps m e o' k = elim (Bool-cases (ltb (max_step steps) request.step_n)) [
        | inl beyond ↦ absurd (thrown e o' (rw beyond at k))
        | inr fine ↦ ground (arith, fine)
      ]
        where
          thrown : (e : Error) (o' : Office S) → (throw {A = String × String} e o').0 ≡ ok ack → ⊥
          thrown e o' t = cc
