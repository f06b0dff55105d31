-- ===== src/Oc/Timeout.antt =====
-- One more attempt after a stall: src/oc/timeout-policy.ts. `race` is the stall detector's, which may
-- reject while the attempt goes on.
use sisu_kodo.Prelude.{
  ℕ, ◌+◌, ◌≤◌, String, Bool, true, false, ◌<>◌, ◌===◌, if◌then◌else◌, ◌≡◌, refl, arith, Bool-cases,
  inl, inr, ◌⊎◌,
}
use sisu_kodo.Failure.{Error, workflow, Result, ok, err}
use sisu_kodo.Failure.Async.{Async, throw, catch, ◌>>=◌, ◌>>◌, resume, continue}

unfoldable pub is_stall : Error → Bool
is_stall (workflow code m) = code === "oc_stall"
is_stall _ = false

abbrev pub terminal_timeout : String → Error
terminal_timeout step_id =
    workflow "oc_timeout_terminal" ("Terminal timeout after retry for " <> step_id)

module _ {W T : Type 0} (race : Async W T → Async W T) (on_attempt : String → Async W T)
    (on_retry : Async W (Unit {0})) (tighten_prompt : String → String) (step_id : String) where
  -- `execute(prompt, true)`
  unfoldable pub execute_retry : String → Async W T
  unfolding is_stall
  execute_retry prompt =
      catch (race (on_attempt prompt))
        (λ e. if is_stall e then throw (terminal_timeout step_id) else throw e)

  unfoldable pub run_with_timeout_policy : String → Async W T
  run_with_timeout_policy prompt =
      catch (race (on_attempt prompt))
        (λ e. if is_stall e then (on_retry >> execute_retry (tighten_prompt prompt)) else throw e)

  abbrev attempt : String → W → Result T × W
  attempt prompt w = race (on_attempt prompt) w

  unhandled :
      (prompt : String) (w : W) {r : Result T}
      → (attempt prompt w).0 ≡ r
      → run_with_timeout_policy prompt w
        ≡ resume r
            (λ e.
              if is_stall e then (on_retry >> execute_retry (tighten_prompt prompt)) else throw e)
            (attempt prompt w).1
  unfolding run_with_timeout_policy catch
  unhandled prompt w h = rw (← h) refl

  Result-cases : (r : Result T) → ((x : T) × (r ≡ ok x)) ⊎ ((e : Error) × (r ≡ err e))
  Result-cases (ok x) = inl (x, refl)
  Result-cases (err e) = inr (e, refl)

  -- The retry adds no attempt of its own.
  retry_world : (prompt : String) (w : W) → (execute_retry prompt w).1 ≡ (attempt prompt w).1
  unfolding execute_retry catch throw
  retry_world prompt w = go (attempt prompt w).0
    where
      go :
          (r : Result T)
          → (resume r
              (λ e. if is_stall e then throw (terminal_timeout step_id) else throw e)
              (attempt prompt w).1).1
            ≡ (attempt prompt w).1
      go (ok x) = refl
      go (err e) = elim (Bool-cases (is_stall e)) [
        | inl stalls ↦ rw stalls refl
        | inr other ↦ rw other refl
      ]

  -- When an attempt counts as one and the preparation of the retry as none, a prompt costs two
  -- attempts at most, however they end.
  pub run_with_timeout_policy-at_most_two :
      (count : W → ℕ)
      → ((prompt : String) (w : W) → count (attempt prompt w).1 ≤ count w + 1)
      → ((w : W) → count (on_retry w).1 ≤ count w)
      → (prompt : String) (w : W) → count (run_with_timeout_policy prompt w).1 ≤ count w + 2
  unfolding ◌>>◌ ◌>>=◌ throw
  run_with_timeout_policy-at_most_two count one none_more prompt w =
      elim (Result-cases (attempt prompt w).0) [
        | inl (x, fine) ↦ rw (unhandled prompt w fine) (omega (arith, one prompt w))
        | inr (e, fails) ↦ elim (Bool-cases (is_stall e)) [
          | inl stalls ↦
              rw (unhandled prompt w fails, stalls)
                (omega (
                  arith,
                  one prompt w,
                  none_more (attempt prompt w).1,
                  retried (on_retry (attempt prompt w).1).0 (tighten_prompt prompt)
                      (on_retry (attempt prompt w).1).1,
                ))
          | inr other ↦ rw (unhandled prompt w fails, other) (omega (arith, one prompt w))
        ]
      ]
    where
      retried :
          (r : Result (Unit {0})) (p : String) (v : W)
          → count (continue r (λ _. execute_retry p) v).1 ≤ count v + 1
      retried (ok tt) p v = rw (retry_world p v) (one p v)
      retried (err e) p v = omega arith

  -- Two stalls, with a preparation that succeeds in between, end in the terminal timeout.
  pub run_with_timeout_policy-terminal :
      (prompt : String) (w : W) (e e' : Error)
      → (attempt prompt w).0 ≡ err e
      → is_stall e ≡ true
      → let left = (attempt prompt w).1 in
        (on_retry left).0 ≡ ok tt
        → (attempt (tighten_prompt prompt) (on_retry left).1).0 ≡ err e'
        → is_stall e' ≡ true
        → (run_with_timeout_policy prompt w).0 ≡ err (terminal_timeout step_id)
  unfolding ◌>>◌ ◌>>=◌ throw execute_retry catch
  run_with_timeout_policy-terminal prompt w e e' f s r f' s' =
      rw (unhandled prompt w f, s, r, f', s') refl
