-- ===== src/Patch/Confined.antt =====
-- A plan writes below the directory .tmp and nowhere else (src/workflow/steps/apply-patch.step.ts).
use sisu_kodo.Prelude.{
  ℕ, suc, String, Bool, true, false, List, [], ◌∷◌, ◌≡◌, ◌≢◌, refl, ◌∙◌, arith, eq_iff,
}
use sisu_kodo.Failure.{Result, ok, err}
use sisu_kodo.Failure.Async.{continue}
use sisu_kodo.Patch.{
  PatchHistoryRow, PatchWorld, PatchHashes, PatchItem, ReversiblePatchInput, apply_row,
  apply_reversible_patch, insert_patch_history, new_history_row, read_utf8, is_allowed,
  resolve_patch_path_or_throw, apply_plan, patch_input,
}
use sisu_kodo.Patch.Single.{fresh_hashes}

module _ (sha256 : String → String) (now : ℕ) where
  apply_row_elsewhere :
      (input : ReversiblePatchInput) (hashes : PatchHashes) (row : PatchHistoryRow) (w : PatchWorld)
      (q : String)
      → input.target_path ≢ q
      → (apply_row sha256 now input hashes row w).1.files q ≡ w.files q
  unfolding apply_row
  apply_row_elsewhere input hashes row w q n = ground (arith, eq_iff input.target_path q)

  apply_elsewhere :
      (input : ReversiblePatchInput) (w : PatchWorld) (q : String)
      → input.target_path ≢ q
      → (apply_reversible_patch sha256 now input w).1.files q ≡ w.files q
  unfolding apply_reversible_patch
  apply_elsewhere input w q n =
      let inserted =
        insert_patch_history sha256 now
          (new_history_row sha256 now input (read_utf8 w.files input.target_path)) w.history in
      apply_row_elsewhere input (fresh_hashes sha256 now input w) inserted.0
        (record w { history = inserted.1 }) q n

  module _ (resolve : String → String) (starts_with : String → String → Bool) where
    resolved_allowed :
        (target t : String)
        → resolve_patch_path_or_throw resolve starts_with target ≡ ok t
        → is_allowed resolve starts_with t ≡ true
    unfolding resolve_patch_path_or_throw
    resolved_allowed target t h = ground arith

    -- Whatever a plan asks for and however it ends, a file outside the allowed directory stays as it
    -- was.
    pub apply_plan_confined :
        (run : String) (i : ℕ) (items : List PatchItem) (w : PatchWorld) (q : String)
        → is_allowed resolve starts_with q ≡ false
        → (apply_plan sha256 now resolve starts_with run i items w).1.files q ≡ w.files q
    unfolding apply_plan
    apply_plan_confined run i [] w q outside = refl
    apply_plan_confined run i (item ∷ items) w q outside =
        resolved (resolve_patch_path_or_throw resolve starts_with item.target_path) refl
          (λ x. apply_plan_confined run (suc i) items x q outside)
      where
        applied :
            (r : Result PatchHashes) (x : PatchWorld)
            → ((y : PatchWorld)
                → (apply_plan sha256 now resolve starts_with run (suc i) items y).1.files q
                  ≡ y.files q)
            → (continue r
                  (λ _. apply_plan sha256 now resolve starts_with run (suc i) items)
                  x).1.files
                q
              ≡ x.files q
        applied (ok _) x rest = rest x
        applied (err _) x rest = refl

        resolved :
            (r : Result String)
            → resolve_patch_path_or_throw resolve starts_with item.target_path ≡ r
            → ((y : PatchWorld)
                → (apply_plan sha256 now resolve starts_with run (suc i) items y).1.files q
                  ≡ y.files q)
            → (apply_plan sha256 now resolve starts_with run i (item ∷ items) w).1.files q
              ≡ w.files q
        resolved (err e) bad rest = rw (bad, apply_plan) refl
        resolved (ok t) good rest = rw good (
            applied (apply_reversible_patch sha256 now (patch_input run i item t) w).0
              (apply_reversible_patch sha256 now (patch_input run i item t) w).1 rest
            ∙ apply_elsewhere (patch_input run i item t) w q
                (λ e. cc (resolved_allowed item.target_path t good)))
