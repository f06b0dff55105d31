-- ===== src/Evaluation/Named.antt =====
-- The results of an evaluation carry the ids of its checks, in their order: src/eval/runner.ts.
use sisu_kodo.Prelude.{String, Option, none, some, List, [], ◌∷◌, ◌≡◌, refl, sym, ap, ◌∙◌, map}
use sisu_kodo.Prelude.Sorting.{sort_by, map-sort_by}
use sisu_kodo.Failure.{Result, ok, err, bind_ok, then_ok, ◌>>=◌}
use sisu_kodo.Hash.{Platform}
use sisu_kodo.Evaluation.Checks.{
  EvalCheck, EvalCheckResult, EvalArtifact, Engines, check_id, file_exists, jsonschema,
  rowcount_gte, regex, diff_le, check_diff, check_schema, check_regex, evaluate_check,
  evaluate_each, evaluate_checks,
}

module _ (p : Platform) (engines : Engines) (uris : List String)
    (get : String → Option EvalArtifact) where
  abbrev Names : String → Result EvalCheckResult → Type 0
  Names id x = (r : EvalCheckResult) → x ≡ ok r → r.check_id ≡ id

  named : (id : String) (result : EvalCheckResult) → result.check_id ≡ id → Names id (ok result)
  named id result e r h = let same : result ≡ r = cc in ap EvalCheckResult.check_id (sym same) ∙ e

  named_after :
      {A : Type 0} (id : String) (m : Result A) (f : A → EvalCheckResult)
      → ((x : A) → (f x).check_id ≡ id)
      → Names id (m >>= λ x. ok (f x))
  named_after id (ok x) f e r h = named id (f x) (e x) r h
  named_after id (err _) f e r h = cc

  evaluate_check-named : (c : EvalCheck) → Names (check_id c) (evaluate_check p engines uris get c)
  unfolding evaluate_check check_diff check_schema check_regex
  evaluate_check-named (file_exists id glob) = named_after id _ _ (λ hit. refl)
  evaluate_check-named (jsonschema id artifact schema) = go (get artifact)
    where
      go :
          (found : Option EvalArtifact) → Names id (check_schema p engines id artifact schema found)
      go none = named id _ refl
      go (some art) = named_after id _ _ (λ valid. refl)
  evaluate_check-named (rowcount_gte id artifact n) = named id _ refl
  evaluate_check-named (regex id artifact re) = go (get artifact)
    where
      go : (found : Option EvalArtifact) → Names id (check_regex p engines id artifact re found)
      go none = named id _ refl
      go (some art) = named_after id _ _ (λ pass. refl)
  evaluate_check-named (diff_le id left right max) = go (get left) (get right)
    where
      go : (x y : Option EvalArtifact) → Names id (ok (check_diff p engines id left right max x y))
      go none y = named id _ refl
      go (some a) none = named id _ refl
      go (some a) (some b) = named id _ refl

  evaluate_each-ids :
      (checks : List EvalCheck) (results : List EvalCheckResult)
      → evaluate_each p engines uris get checks ≡ ok results
      → map EvalCheckResult.check_id results ≡ map check_id checks
  unfolding evaluate_each
  evaluate_each-ids [] results h =
      let e : [] ≡ results = cc in ap (map EvalCheckResult.check_id) (sym e)
  evaluate_each-ids (c ∷ checks) results h =
      let (r, checked, h1) = bind_ok (evaluate_check p engines uris get c) _ results h in
      let (valid, h2) = then_ok (engines.assert_eval_check_result r) _ results h1 in
      let (rs, rest, h3) = bind_ok (evaluate_each p engines uris get checks) _ results h2 in
      let e : r ∷ rs ≡ results = cc in
      rw (← e, evaluate_check-named c r checked, evaluate_each-ids checks rs rest) refl

  pub evaluate_checks-ids :
      (checks : List EvalCheck) (results : List EvalCheckResult)
      → evaluate_checks p engines uris get checks ≡ ok results
      → map EvalCheckResult.check_id results ≡ sort_by p.locale_le (map check_id checks)
  unfolding evaluate_checks
  evaluate_checks-ids checks results h =
      let (rs, each, h1) = bind_ok (evaluate_each p engines uris get _) _ results h in
      let (valid, h2) = then_ok (engines.assert_eval_check_results rs) _ results h1 in
      let e : rs ≡ results = cc in
      ap (map EvalCheckResult.check_id) (sym e)
      ∙ evaluate_each-ids _ rs each
      ∙ map-sort_by p.locale_le check_id checks
