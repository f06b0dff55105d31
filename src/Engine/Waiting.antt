-- ===== src/Engine/Waiting.antt =====
-- Waiting for a workflow by polling: waitUntilComplete of src/workflow/engine-custom.ts.
-- `seen n` is what the n-th SELECT of `completed` finds, and `elapsed n` the time that has passed at
-- its check; the fuel counts rounds.
use sisu_kodo.Prelude.{
  ℕ, zero, suc, ◌+◌, ◌*◌, ◌≤◌, ◌<◌, ltb, String, Bool, true, false, Option, none, some, ◌≡◌, refl,
  arith, inl, inr, ◌<>◌, decimal, if◌then◌else◌, Bool-cases,
}
use sisu_kodo.Failure.{Error, plain, Result, ok, err}

abbrev pub incomplete_error : String → ℕ → Error
incomplete_error id timeout =
    plain ("workflow " <> (id <> (" did not complete in " <> (decimal timeout <> "ms"))))

module _ (seen : ℕ → Bool) (elapsed : ℕ → ℕ) (id : String) (timeout : ℕ) where
  unfoldable pub wait_until_complete : ℕ → ℕ → Option (Result (Unit {0}))
  wait_until_complete zero n = none
  wait_until_complete (suc fuel) n =
      let rest = wait_until_complete fuel (suc n) in
      if seen n
      then some (ok tt)
      else if ltb timeout (elapsed n)
      then some (err (incomplete_error id timeout))
      else rest

  -- The call returned once the row was complete, or gave up after the timeout.
  abbrev pub Waited : Result (Unit {0}) → Type 0
  Waited (ok _) = (n : ℕ) × (seen n ≡ true)
  Waited (err e) =
      (n : ℕ) × (timeout < elapsed n) × (seen n ≡ false) × (e ≡ incomplete_error id timeout)

  wait-returns :
      ((n : ℕ) → elapsed n + 20 ≤ elapsed (suc n))
      → (fuel n : ℕ) → timeout < elapsed n + fuel * 20
      → (r : Result (Unit {0})) × (wait_until_complete (suc fuel) n ≡ some r) × Waited r
  unfolding wait_until_complete
  wait-returns clock zero n enough = elim (Bool-cases (seen n)) [
    | inl hit ↦ (ok tt, ground (arith, hit), (n, hit))
    | inr miss ↦
        (err (incomplete_error id timeout), ground (arith, miss), (n, omega arith, miss, refl))
  ]
  wait-returns clock (suc fuel) n enough = elim (Bool-cases (seen n)) [
    | inl hit ↦ (ok tt, ground (arith, hit), (n, hit))
    | inr miss ↦ elim (Bool-cases (ltb timeout (elapsed n))) [
      | inl late ↦ (
        err (incomplete_error id timeout),
        ground (arith, miss, late),
        (n, ground (arith, late), miss, refl),
      )
      | inr early ↦
          let (r, e, w) = wait-returns clock fuel (suc n) (omega (arith, clock n)) in
          (r, ground (arith, miss, early, e), w)
    ]
  ]

  -- Polls that are at least 20ms apart end: after as many rounds as the timeout has 20ms, and one
  -- more, the call has returned, because it saw the row complete or because the timeout had passed.
  pub wait_until_complete-returns :
      ((n : ℕ) → elapsed n + 20 ≤ elapsed (suc n))
      → (fuel : ℕ) → timeout < fuel * 20
      → (r : Result (Unit {0})) × (wait_until_complete (suc fuel) 0 ≡ some r) × Waited r
  wait_until_complete-returns clock fuel enough = wait-returns clock fuel 0 (omega arith)
