-- ===== src/Polling.antt =====
-- Waiting for a predicate by polling: waitUntil of src/lib/time.ts.
-- `predicate n` is what the n-th call of the predicate resolves or rejects with, and `elapsed n` the
-- time that has passed at the n-th test of the loop; the fuel counts rounds.
use sisu_kodo.Prelude.{
  ℕ, zero, suc, ◌+◌, ◌*◌, ◌≤◌, ◌<◌, ltb, Bool, true, false, Option, none, some, ◌≡◌, refl, arith,
  ◌⊎◌, inl, inr, ◌<>◌, decimal, if◌then◌else◌, Bool-cases,
}
use sisu_kodo.Failure.{Error, plain, Result, ok, err}

abbrev pub timeout_error : ℕ → Error
timeout_error timeout = plain ("Timeout after " <> (decimal timeout <> "ms"))

module _ (predicate : ℕ → Result Bool) (elapsed : ℕ → ℕ) (timeout : ℕ) where
  unfoldable pub wait_until : ℕ → ℕ → Option (Result (Unit {0}))
  wait_until zero n = none
  wait_until (suc fuel) n =
      let rest = wait_until fuel (suc n) in
      if ltb (elapsed n) timeout
      then (elim (predicate n) [ err e ↦ some (err e) | ok b ↦ if b then some (ok tt) else rest ])
      else some (err (timeout_error timeout))

  -- Why a call is over: the predicate held, or it threw, or the time was up.
  abbrev pub Ended : Result (Unit {0}) → Type 0
  Ended (ok _) = (n : ℕ) × (predicate n ≡ ok true) × (elapsed n < timeout)
  Ended (err e) =
      ((n : ℕ) × (predicate n ≡ err e))
      ⊎ ((n : ℕ) × (timeout ≤ elapsed n) × (e ≡ timeout_error timeout))

  Result-cases : (r : Result Bool) → ((e : Error) × (r ≡ err e)) ⊎ ((r ≡ ok true) ⊎ (r ≡ ok false))
  Result-cases (err e) = inl (e, refl)
  Result-cases (ok true) = inr (inl refl)
  Result-cases (ok false) = inr (inr refl)

  module _ (interval : ℕ) (clock : (n : ℕ) → elapsed n + interval ≤ elapsed (suc n)) where
    wait-returns :
        (fuel n : ℕ)
        → timeout ≤ elapsed n + fuel * interval
        → (r : Result (Unit {0})) × (wait_until (suc fuel) n ≡ some r) × Ended r
    unfolding wait_until
    wait-returns zero n enough =
        (err (timeout_error timeout), ground arith, inr (n, omega arith, refl))
    wait-returns (suc fuel) n enough = elim (Bool-cases (ltb (elapsed n) timeout)) [
      | inr late ↦
          (err (timeout_error timeout), ground (arith, late), inr (n, ground (arith, late), refl))
      | inl early ↦ elim (Result-cases (predicate n)) [
        | inl (e, rejects) ↦ (err e, ground (arith, early, rejects), inl (n, rejects))
        | inr (inl holds) ↦ (ok tt, ground (arith, early, holds), (n, holds, ground (arith, early)))
        | inr (inr fails) ↦
            let (r, e, w) = wait-returns fuel (suc n) (later fuel n enough) in
            (r, ground (arith, early, fails, e), w)
      ]
    ]
      where
        later :
            (fuel n : ℕ)
            → timeout ≤ elapsed n + suc fuel * interval
            → timeout ≤ elapsed (suc n) + fuel * interval
        later fuel n h = grind (arith, clock n)

    -- When rounds are at least the interval apart, the call has returned after the rounds that the
    -- timeout has intervals, and one more: because the predicate held within the timeout, because it
    -- threw, or because the time was up.
    pub wait_until-returns :
        (fuel : ℕ)
        → timeout ≤ fuel * interval
        → (r : Result (Unit {0})) × (wait_until (suc fuel) 0 ≡ some r) × Ended r
    wait_until-returns fuel enough = wait-returns fuel 0 (omega arith)
