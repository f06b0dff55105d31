-- ===== src/Budget/Attempts.antt =====
-- The attempt that the budget guard reads off a merged result is the greatest of its tasks'.
use sisu_kodo.Prelude.{
  ◌≡◌, refl, ◌∙◌, ap, Option, none, some, List, [], ◌∷◌, arith, ◌or_default◌, All,
}
use sisu_kodo.Prelude.Json.{ℤ, pos, negsuc, max_ℤ}
use sisu_kodo.Sandbox.{
  SbxRes, raw_attempt, task_summary, task_summaries, reduce_attempt, merge_results,
}
use sisu_kodo.Budget.{task_attempt, max_task_attempt, max_observed_execute_attempt}

max_ℤ_absorb : (t a x : ℤ) → max_ℤ t (max_ℤ a x) ≡ t → (max_ℤ t a ≡ t) × (max_ℤ t x ≡ t)
max_ℤ_absorb (pos t) (pos a) (pos x) h = ground arith
max_ℤ_absorb (pos t) (pos a) (negsuc x) h = ground arith
max_ℤ_absorb (pos t) (negsuc a) (pos x) h = ground arith
max_ℤ_absorb (pos t) (negsuc a) (negsuc x) h = ground arith
max_ℤ_absorb (negsuc t) (pos a) (pos x) h = ground arith
max_ℤ_absorb (negsuc t) (pos a) (negsuc x) h = ground arith
max_ℤ_absorb (negsuc t) (negsuc a) (pos x) h = ground arith
max_ℤ_absorb (negsuc t) (negsuc a) (negsuc x) h = ground arith

max_ℤ_idem : (t : ℤ) → max_ℤ t t ≡ t
max_ℤ_idem (pos t) = ground arith
max_ℤ_idem (negsuc t) = ground arith

reduce_attempt_absorbs :
    (acc : ℤ) (rs : List SbxRes) → max_ℤ (reduce_attempt acc rs) acc ≡ reduce_attempt acc rs
unfolding reduce_attempt
reduce_attempt_absorbs acc [] = max_ℤ_idem acc
reduce_attempt_absorbs acc (r ∷ rs) =
    let x = raw_attempt r or_default pos 1 in
    (max_ℤ_absorb _ acc x (reduce_attempt_absorbs (max_ℤ acc x) rs)).0

task_attempt-task_summary : (r : SbxRes) → task_attempt (task_summary r) ≡ raw_attempt r
task_attempt-task_summary r = ground arith

absorbs_trans : (t m x : ℤ) → max_ℤ t m ≡ t → max_ℤ m x ≡ m → max_ℤ t x ≡ t
absorbs_trans t m x h k = (max_ℤ_absorb t m x (ap (max_ℤ t) k ∙ h)).1

-- What takes in the greatest attempt takes in each of them.
reduce_attempt_absorbs_each :
    (top acc : ℤ) (rs : List SbxRes)
    → max_ℤ top (reduce_attempt acc rs) ≡ top
    → All (λ r. max_ℤ top (raw_attempt r or_default pos 1) ≡ top) rs
unfolding reduce_attempt
reduce_attempt_absorbs_each top acc [] h = tt
reduce_attempt_absorbs_each top acc (r ∷ rs) h =
    let x : ℤ = raw_attempt r or_default pos 1 in
    let rest : ℤ = reduce_attempt (max_ℤ acc x) rs in
    let below : max_ℤ rest x ≡ rest =
      (max_ℤ_absorb rest acc x (reduce_attempt_absorbs (max_ℤ acc x) rs)).1 in
    (absorbs_trans top rest x h below, reduce_attempt_absorbs_each top (max_ℤ acc x) rs h)

max_task_attempt-summaries :
    (top : ℤ) (rs : List SbxRes)
    → All (λ r. max_ℤ top (raw_attempt r or_default pos 1) ≡ top) rs
    → max_task_attempt top (task_summaries rs) ≡ top
unfolding max_task_attempt task_summaries
max_task_attempt-summaries top [] h = refl
max_task_attempt-summaries top (r ∷ rs) (h, hs) =
    rw (task_attempt-task_summary r, max_task_attempt)
      (rw (after (raw_attempt r) h) (max_task_attempt-summaries top rs hs))
  where
    after :
        (o : Option ℤ)
        → max_ℤ top (o or_default pos 1) ≡ top
        → (elim o as (λ _. ℤ) [ none ↦ top | some a ↦ max_ℤ top a ]) ≡ top
    after none _ = refl
    after (some a) e = e

-- The attempt that the budget guard reads off a merged fan-out is the greatest one that a task
-- reported, a task that reports none counting as its first.
pub max_observed-merge_results :
    (rs : List SbxRes)
    → max_observed_execute_attempt (merge_results rs).raw ≡ reduce_attempt (pos 1) rs
unfolding max_observed_execute_attempt merge_results
max_observed-merge_results rs =
    max_task_attempt-summaries _ rs (reduce_attempt_absorbs_each _ (pos 1) rs (max_ℤ_idem _))
