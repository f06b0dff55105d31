-- ===== src/Evaluation/Run.antt =====
-- Evaluating a run: evaluateRun of src/eval/evaluate-run.ts.
use sisu_kodo.Prelude.{
  ℕ, String, Bool, some, List, [], ◌∷◌, ◌≡◌, ◌⊎◌, inl, inr, refl, ap, ◌∙◌, map, All, All-map,
  Bool-cases,
}
use sisu_kodo.Prelude.Sorting.{sort_by, map-sort_by}
use sisu_kodo.Failure
use sisu_kodo.Prelude.Json.{Json}
use sisu_kodo.Failure.{Error, Result, ok, err, bind_ok, then_ok}
use sisu_kodo.Failure.Async.{Async, lift, continue, ◌>>=◌, ◌>>◌, lift_returns, lift_of_ok}
use sisu_kodo.Failure.Repeated.{do_each-All, do_each-still}
use sisu_kodo.Hash.{Platform}
use sisu_kodo.Artifacts.Insertion.{ArtifactRow}
use sisu_kodo.Evaluation.Checks.{EvalCheck, EvalCheckResult, Engines, check_id, evaluate_checks}
use sisu_kodo.Evaluation.Named.{evaluate_checks-ids}
use sisu_kodo.Evaluation.Inputs.{
  Validators, Arrangement, artifacts_of_run, find_index, artifact_at, index_or_throw, run_results,
}
use sisu_kodo.Evaluation.Results.{
  EvalResultRow, find_result, agrees, save_result, save_each, save_eval_results, list_eval_results,
}
use sisu_kodo.Evaluation.Results.Again.{Recorded, save_result-Recorded, save_result-keeps}

All-map_intro :
    {A B : Type 0} (P : B → Type 0) (f : A → B) (xs : List A)
    → All (λ x. P (f x)) xs
    → All P (map f xs)
All-map_intro P f [] h = tt
All-map_intro P f (x ∷ xs) (h, hs) = (h, All-map_intro P f xs hs)

All-map_elim :
    {A B : Type 0} (P : B → Type 0) (f : A → B) (xs : List A)
    → All P (map f xs)
    → All (λ x. P (f x)) xs
All-map_elim P f [] h = tt
All-map_elim P f (x ∷ xs) (h, hs) = (h, All-map_elim P f xs hs)

module _ (p : Platform) (run_id : String) where
  -- Some result is on record under the id.
  abbrev Known : List EvalResultRow → String → Type 0
  Known rows id = (row : EvalResultRow) × (find_result rows run_id id ≡ some row)

  save_result-still :
      (now : ℕ) (r : EvalCheckResult) (rows : List EvalResultRow)
      → Known rows r.check_id
      → (save_result p now run_id r rows).1 ≡ rows
  unfolding save_result
  save_result-still now r rows (row, f) = rw f (elim (Bool-cases (agrees p now run_id row r)) [
    | inl same ↦ rw same refl
    | inr other ↦ rw other refl
  ])

  abbrev in_order : List EvalCheckResult → List EvalCheckResult
  in_order results = sort_by (λ (a b : EvalCheckResult). p.locale_le a.check_id b.check_id) results

  saved-Known :
      (now : ℕ) (results : List EvalCheckResult) (rows : List EvalResultRow)
      → (save_eval_results p now run_id results rows).0 ≡ ok tt
      → All
          (Known (save_eval_results p now run_id results rows).1)
          (map EvalCheckResult.check_id (in_order results))
  unfolding save_eval_results save_each
  saved-Known now results rows h = All-map_intro _ EvalCheckResult.check_id (in_order results) (
      All-map _ _ (λ r (row, f, a). (row, f)) (in_order results)
        (do_each-All (save_result p now run_id) (Recorded p now run_id)
          (save_result-Recorded p now run_id) (save_result-keeps p now run_id) (in_order results)
          rows h))

  -- Results under ids that are on record change nothing, whether they agree with it or not.
  Known-still :
      (now : ℕ) (results : List EvalCheckResult) (rows : List EvalResultRow)
      → All (Known rows) (map EvalCheckResult.check_id (in_order results))
      → (save_eval_results p now run_id results rows).1 ≡ rows
  unfolding save_eval_results save_each
  Known-still now results rows h =
      do_each-still (save_result p now run_id) (λ rs r. Known rs r.check_id) (save_result-still now)
        (in_order results) rows
        (All-map_elim (Known rows) EvalCheckResult.check_id (in_order results) h)

module _ (p : Platform) (engines : Engines) (validators : Validators)
    (collates : String → String → Bool) (run_id : String) (checks : List EvalCheck) where
  abbrev pub stored_results : Async (List EvalResultRow) (List EvalResultRow)
  stored_results rows = (ok (list_eval_results collates rows run_id), rows)

  abbrev pub save_and_list :
      ℕ → List EvalCheckResult → Async (List EvalResultRow) (List EvalResultRow)
  save_and_list now results = save_eval_results p now run_id results >> stored_results

  unfoldable pub evaluate_run :
      Arrangement → List ArtifactRow → ℕ → Async (List EvalResultRow) (List EvalResultRow)
  evaluate_run arranged artifacts now =
      lift (run_results p engines validators run_id checks arranged artifacts) >>= save_and_list now

  -- The ids of the results are those of the checks, whatever the artifacts are.
  run_results-ids :
      (arranged : Arrangement) (artifacts : List ArtifactRow) (results : List EvalCheckResult)
      → run_results p engines validators run_id checks arranged artifacts ≡ ok results
      → map EvalCheckResult.check_id (in_order p run_id results)
        ≡ sort_by p.locale_le (sort_by p.locale_le (map check_id checks))
  unfolding run_results
  run_results-ids arranged artifacts results h =
      let (valid, h1) =
        then_ok (validators.assert_eval_checks checks)
          (Failure.◌>>=◌ (index_or_throw run_id (find_index rows)) indexed) results h in
      let (index, found, h2) =
        bind_ok (index_or_throw run_id (find_index rows)) indexed results h1 in
      let (uris, listed, h3) = bind_ok (validators.assert_artifact_index index) judged results h2 in
      map-sort_by p.locale_le EvalCheckResult.check_id results
      ∙ ap (sort_by p.locale_le)
          (evaluate_checks-ids p engines uris (artifact_at rows) checks results h3)
    where
      rows : List ArtifactRow
      rows = artifacts_of_run arranged artifacts run_id

      judged : List String → Result (List EvalCheckResult)
      judged uris = evaluate_checks p engines uris (artifact_at rows) checks

      indexed : Json → Result (List EvalCheckResult)
      indexed index = Failure.◌>>=◌ (validators.assert_artifact_index index) judged

  save_and_list-saved :
      (now : ℕ) (results : List EvalCheckResult) (stored out : List EvalResultRow)
      → (save_and_list now results stored).0 ≡ ok out
      → let saved = save_eval_results p now run_id results stored in
        (saved.0 ≡ ok tt)
        × (list_eval_results collates saved.1 run_id ≡ out)
        × ((save_and_list now results stored).1 ≡ saved.1)
  unfolding ◌>>◌ ◌>>=◌
  save_and_list-saved now results stored out h =
      go (save_eval_results p now run_id results stored).0 refl h
    where
      after : List EvalResultRow
      after = (save_eval_results p now run_id results stored).1

      go :
          (x : Result (Unit {0}))
          → (save_eval_results p now run_id results stored).0 ≡ x
          → (continue x (λ _. stored_results) after).0 ≡ ok out
          → ((save_eval_results p now run_id results stored).0 ≡ ok tt)
            × (list_eval_results collates after run_id ≡ out)
            × ((continue x (λ _. stored_results) after).1 ≡ after)
      go (ok _) e k = (e, cc, refl)
      go (err _) e k = cc

  -- The rows stay, and come back if anything does.
  abbrev Kept :
      List EvalResultRow
      → List EvalResultRow
      → Result (List EvalResultRow) × List EvalResultRow
      → Type 0
  Kept rows out x = (x.1 ≡ rows) × ((x.0 ≡ ok out) ⊎ ((e : Error) × (x.0 ≡ err e)))

  save_and_list-Kept :
      (later : ℕ) (results : List EvalCheckResult) (rows out : List EvalResultRow)
      → All (Known p run_id rows) (map EvalCheckResult.check_id (in_order p run_id results))
      → list_eval_results collates rows run_id ≡ out
      → Kept rows out (save_and_list later results rows)
  unfolding ◌>>◌ ◌>>=◌
  save_and_list-Kept later results rows out known listed =
      go (save_eval_results p later run_id results rows).0
        (save_eval_results p later run_id results rows).1
        (Known-still p run_id later results rows known)
    where
      go :
          (x : Result (Unit {0})) (after : List EvalResultRow)
          → after ≡ rows
          → Kept rows out (continue x (λ _. stored_results) after)
      go (ok _) after e =
          (e, inl (ap (λ xs. ok (list_eval_results collates xs run_id)) e ∙ ap ok listed))
      go (err x) after e = (e, inr (x, refl))

  evaluate_run-Kept :
      (arranged : Arrangement) (found : List ArtifactRow) (later : ℕ)
      (rows out : List EvalResultRow)
      → All (Known p run_id rows) (sort_by p.locale_le (sort_by p.locale_le (map check_id checks)))
      → list_eval_results collates rows run_id ≡ out
      → Kept rows out (evaluate_run arranged found later rows)
  unfolding evaluate_run ◌>>=◌ lift
  evaluate_run-Kept arranged found later rows out known listed =
      go (run_results p engines validators run_id checks arranged found) refl
    where
      go :
          (x : Result (List EvalCheckResult))
          → run_results p engines validators run_id checks arranged found ≡ x
          → Kept rows out (continue x (save_and_list later) rows)
      go (ok results) e =
          save_and_list-Kept later results rows out
            (rw (run_results-ids arranged found results e) known) listed
      go (err x) e = (refl, inr (x, refl))

  -- After an evaluation of a run that returned, an evaluation with the same checks at any later time
  -- changes no row, and it returns the same rows or throws. This holds whatever artifacts it finds and in
  -- whatever order the database arranges those of one index, and so also where it judges differently.
  pub evaluate_run-again :
      (arranged rearranged : Arrangement) (artifacts found : List ArtifactRow) (now later : ℕ)
      (stored out : List EvalResultRow)
      → (evaluate_run arranged artifacts now stored).0 ≡ ok out
      → let after = (evaluate_run arranged artifacts now stored).1 in
        ((evaluate_run rearranged found later after).1 ≡ after)
        × (((evaluate_run rearranged found later after).0 ≡ ok out)
            ⊎ ((e : Error) × ((evaluate_run rearranged found later after).0 ≡ err e)))
  evaluate_run-again arranged rearranged artifacts found now later stored out h =
      let (results, judged, saved) =
        lift_returns (run_results p engines validators run_id checks arranged artifacts)
          (save_and_list now) stored {y = out} (unfold evaluate_run in h) in
      let whole : evaluate_run arranged artifacts now stored ≡ save_and_list now results stored =
        unfold evaluate_run in
        (lift_of_ok (run_results p engines validators run_id checks arranged artifacts)
          (save_and_list now) stored results judged) in
      let (fine, listed, left) = save_and_list-saved now results stored out saved in
      let known = saved-Known p run_id now results stored fine in
      rw (whole, left)
        (evaluate_run-Kept rearranged found later _ out
          (rw (run_results-ids arranged artifacts results judged) at known) listed)
