-- ===== src/Sandbox/Merging.antt =====
-- The merge of a fan-out keeps the worst of its parts (mergeResults of
-- src/workflow/wf/run-intent.wf.ts).
use sisu_kodo.Prelude.{ℕ, ◌≤◌, ◌≡◌, refl, ◌↔◌, true, List, [], ◌∷◌, arith, All}
use native.Mathlib.Nat.{le_refl}
use sisu_kodo.Sandbox.{
  SbxErrCode, SbxRes, SbxMetrics, is_none, merge_metrics, reduce_metrics, merge_results,
}

abbrev pub Succeeded : SbxRes → Type 0
Succeeded r = r.err_code ≡ SbxErrCode.none_code

is_none_iff : (c : SbxErrCode) → (is_none c ≡ true) ↔ (c ≡ SbxErrCode.none_code)
is_none_iff SbxErrCode.none_code = ground arith
is_none_iff _ = (λ h. cc, λ h. cc)

-- The merged result has no error code exactly when no task has one.
pub merge_results_none_iff :
    (rs : List SbxRes) → ((merge_results rs).err_code ≡ SbxErrCode.none_code) ↔ All Succeeded rs
unfolding merge_results
merge_results_none_iff [] = (λ h. tt, λ h. refl)
merge_results_none_iff (r ∷ rs) = (
  λ h. ground (arith, is_none_iff r.err_code, merge_results_none_iff rs),
  λ h. ground (arith, is_none_iff r.err_code, merge_results_none_iff rs),
)

reduce_metrics-ge :
    (acc : SbxMetrics) (rs : List SbxRes)
    → (acc.wall_ms ≤ (reduce_metrics acc rs).wall_ms)
      × (acc.mem_peak_mb ≤ (reduce_metrics acc rs).mem_peak_mb)
unfolding reduce_metrics
reduce_metrics-ge acc [] = omega arith
reduce_metrics-ge acc (r ∷ rs) = omega (arith, reduce_metrics-ge (merge_metrics acc r) rs)

reduce_metrics-ge_each :
    (acc : SbxMetrics) (rs : List SbxRes) (wall mem : ℕ)
    → (reduce_metrics acc rs).wall_ms ≤ wall
    → (reduce_metrics acc rs).mem_peak_mb ≤ mem
    → All (λ r. (r.metrics.wall_ms ≤ wall) × (r.metrics.mem_peak_mb ≤ mem)) rs
unfolding reduce_metrics
reduce_metrics-ge_each acc [] wall mem h k = tt
reduce_metrics-ge_each acc (r ∷ rs) wall mem h k = (
  omega (arith, reduce_metrics-ge (merge_metrics acc r) rs),
  reduce_metrics-ge_each (merge_metrics acc r) rs wall mem h k,
)

-- The merged wall time and memory peak bound those of every task.
pub merge_results_bounds :
    (rs : List SbxRes)
    → let m = (merge_results rs).metrics in
      All (λ r. (r.metrics.wall_ms ≤ m.wall_ms) × (r.metrics.mem_peak_mb ≤ m.mem_peak_mb)) rs
unfolding merge_results
merge_results_bounds rs = reduce_metrics-ge_each _ rs _ _ (le_refl _) (le_refl _)
