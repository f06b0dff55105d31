-- ===== src/Start/Launch.antt =====
-- The call of the engine, its answer and what follows it: src/workflow/start-intent.ts.
use sisu_kodo.Prelude.{
  ℕ, String, Bool, true, false, not, ◌⊎◌, ◌≡◌, ◌⊎◌, refl, sym, ap, ◌∙◌, Bool-cases, inl, inr,
}
use sisu_kodo.Failure.{Error, Result, ok, err}
use sisu_kodo.Failure.Async.{pure, throw, catch, ◌>>=◌, ◌>>◌}
use sisu_kodo.Runs.{failed, update_run_status}
use sisu_kodo.Runs.Insertion.{Inserted}
use sisu_kodo.Start.{
  Engine, Ack, World, is_conflict, mark_failed, start_workflow, on_rejected, launch,
}
use sisu_kodo.Start.Options.{WorkflowOptions}

abbrev pub ack_of : Inserted → String → Bool → Ack
ack_of row id replay = record { run_id = row.run.id; workflow_id = id; is_replay = replay }

module _ {E : Type 0} (now : ℕ) (row : Inserted) (id : String) (w : World E) where
  reject_replay :
      (ack : Ack) (e : Error)
      → row.inserted ≡ false
      → on_rejected now row ack e w ≡ (ok (record ack { is_replay = true }), w)
  unfolding on_rejected ◌>>◌ ◌>>=◌ pure
  reject_replay ack e h = elim (Bool-cases (is_conflict e)) [
    | inl conflict ↦ rw (h, conflict) refl
    | inr other ↦ rw (h, other) refl
  ]

  reject_conflict :
      (ack : Ack) (e : Error)
      → is_conflict e ≡ true
      → on_rejected now row ack e w ≡ (ok (record ack { is_replay = true }), w)
  unfolding on_rejected ◌>>◌ ◌>>=◌ pure
  reject_conflict ack e conflict = elim (Bool-cases row.inserted) [
    | inl fresh ↦ rw (fresh, conflict) refl
    | inr known ↦ rw (known, conflict) refl
  ]

  -- A start of a new run that the engine rejects marks the run failed and throws on.
  pub reject_new :
      (ack : Ack) (e : Error)
      → row.inserted ≡ true
      → is_conflict e ≡ false
      → on_rejected now row ack e w
        ≡ (err e, record w { runs = update_run_status now w.runs row.run.id failed })
  unfolding on_rejected ◌>>◌ ◌>>=◌ throw mark_failed
  reject_new ack e fresh other = rw (fresh, other) refl

module _ {E : Type 0} (engine : Engine E) (now : ℕ) (row : Inserted) (id : String)
    (options : WorkflowOptions) (w : World E) where
  abbrev pub engine_left : World E
  engine_left = record w { engine = (engine id options w.engine).1 }

  pub launch_ok :
      (engine id options w.engine).0 ≡ ok tt
      → launch engine now row id options w ≡ (ok (ack_of row id (not row.inserted)), engine_left)
  unfolding launch catch ◌>>◌ ◌>>=◌ pure start_workflow
  launch_ok h = rw h refl

  pub launch_err :
      (e : Error)
      → (engine id options w.engine).0 ≡ err e
      → launch engine now row id options w
        ≡ on_rejected now row (ack_of row id (not row.inserted)) e engine_left
  unfolding launch catch ◌>>◌ ◌>>=◌ start_workflow
  launch_err e h = rw h refl

  Engine-cases : (r : Result (Unit {0})) → (r ≡ ok tt) ⊎ ((e : Error) × (r ≡ err e))
  Engine-cases (ok tt) = inl refl
  Engine-cases (err e) = inr (e, refl)

  -- On a row that was there before, the engine's answer does not matter.
  pub launch_replay :
      row.inserted ≡ false
      → launch engine now row id options w ≡ (ok (ack_of row id true), engine_left)
  launch_replay h = elim (Engine-cases (engine id options w.engine).0) [
    | inl fine ↦ launch_ok fine ∙ rw h refl
    | inr (e, fails) ↦
        launch_err e fails
        ∙ reject_replay now row id engine_left (ack_of row id (not row.inserted)) e h
  ]

  -- A start that returns has left the rows alone, and acknowledges the row's run.
  pub launch_returns :
      {ack : Ack}
      → (launch engine now row id options w).0 ≡ ok ack
      → (ack.run_id ≡ row.run.id)
        × (ack.workflow_id ≡ id)
        × ((launch engine now row id options w).1.runs ≡ w.runs)
  launch_returns {ack} h = elim (Engine-cases (engine id options w.engine).0) [
    | inl fine ↦ done (ack_of row id (not row.inserted)) (launch_ok fine) refl refl
    | inr (e, fails) ↦ elim (Bool-cases (is_conflict e)) [
      | inl conflict ↦
          done _ (launch_err e fails ∙ reject_conflict now row id engine_left _ e conflict) refl
            refl
      | inr other ↦ elim (Bool-cases row.inserted) [
        | inl fresh ↦ absurd (
            impossible e (
              sym (
                ap (λ x. x.0)
                  (launch_err e fails ∙ reject_new now row id engine_left _ e fresh other))
              ∙ h))
        | inr known ↦ done (ack_of row id true) (launch_replay known) refl refl
      ]
    ]
  ]
    where
      impossible : (e : Error) → err e ≡ ok ack → ⊥
      impossible e h' = cc

      done :
          (out : Ack)
          → launch engine now row id options w ≡ (ok out, engine_left)
          → out.run_id ≡ row.run.id
          → out.workflow_id ≡ id
          → (ack.run_id ≡ row.run.id)
            × (ack.workflow_id ≡ id)
            × ((launch engine now row id options w).1.runs ≡ w.runs)
      done out e p q = (cc (e, h, p), cc (e, h, q), ap (λ x. x.1.runs) e)
