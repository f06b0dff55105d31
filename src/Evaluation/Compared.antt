-- ===== src/Evaluation/Compared.antt =====
-- When a comparison of two artifacts passes: src/eval/runner.ts.
use sisu_kodo.Prelude.{ℕ, ◌↔◌, ◌≡◌, refl, arith, String, true, Option, none, some, List}
use sisu_kodo.Failure.{ok}
use sisu_kodo.Hash.{Platform}
use sisu_kodo.Evaluation.Distance.Least.{Within, edit_distance_iff}
use sisu_kodo.Evaluation.Checks.{
  EvalArtifact, EvalCheckResult, Engines, diff_le, check_diff, evaluate_check, text_of,
}

module _ (p : Platform) (engines : Engines) (max : ℕ) where
  -- Both artifacts are there, and few edits turn one text into the other.
  abbrev pub Close : Option EvalArtifact → Option EvalArtifact → Type 0
  Close left right =
      (a : EvalArtifact) × (b : EvalArtifact) × (left ≡ some a)
      × (right ≡ some b)
      × Within max (text_of p engines a) (text_of p engines b)

  check_diff-pass :
      (id left right : String) (x y : Option EvalArtifact)
      → ((check_diff p engines id left right max x y).pass ≡ true) ↔ Close x y
  unfolding check_diff
  check_diff-pass id left right none y = (λ h. cc, λ (a, b, ha, hb, w). cc)
  check_diff-pass id left right (some a) none = (λ h. cc, λ (a', b, ha, hb, w). cc)
  check_diff-pass id left right (some a) (some b) =
      let bound =
        edit_distance_iff (text_of p engines a) (text_of p engines b) max max (omega arith) in
      (
        λ h. (a, b, refl, refl, bound.0 (ground (arith, h))),
        λ (a', b', ha, hb, w).
            let same_left : a ≡ a' = cc in
            let same_right : b ≡ b' = cc in
            let near : Within max (text_of p engines a) (text_of p engines b) =
              rw (same_left, same_right) w in
            ground (arith, bound.1 near),
      )

  -- A comparison passes exactly when both artifacts are there and at most as many insertions, deletions
  -- and substitutions as it allows turn the text of one into the text of the other.
  pub evaluate_check_diff_iff :
      (id left right : String) (uris : List String) (get : String → Option EvalArtifact)
      (r : EvalCheckResult)
      → evaluate_check p engines uris get (diff_le id left right max) ≡ ok r
      → (r.pass ≡ true) ↔ Close (get left) (get right)
  unfolding evaluate_check
  evaluate_check_diff_iff id left right uris get r h =
      let e : check_diff p engines id left right max (get left) (get right) ≡ r = cc in
      rw (← e) (check_diff-pass id left right (get left) (get right))
