-- ===== src/Evaluation/Inputs.antt =====
-- What an evaluation reads: evaluateRun of src/eval/evaluate-run.ts up to its writes. The validators
-- that ajv compiles are parameters: the one of an index hands out the addresses of its items.
use sisu_kodo.Prelude.{
  String, Bool, false, Option, none, some, List, ◌===◌, find, filter, reverse, leb, ◌<>◌,
  if◌then◌else◌,
}
use mathlib.Core.Option
use sisu_kodo.Prelude.Json.{Json, null, arr, obj, bool, num, str, get}
use sisu_kodo.Prelude.Sorting.{sort_by}
use sisu_kodo.Failure.{plain, Result, ok, err, ◌>>=◌, ◌>>◌}
use sisu_kodo.Hash.{Platform}
use sisu_kodo.Artifacts.Insertion.{ArtifactRow}
use sisu_kodo.Evaluation.Checks.{EvalCheck, EvalCheckResult, EvalArtifact, Engines, evaluate_checks}

pub record Validators : Type 0 where
  pub assert_eval_checks : List EvalCheck → Result (Unit {0})
  pub assert_artifact_index : Json → Result (List String)

-- How the database arranges the rows of a run before it sorts them: it is free to, at every query.
abbrev pub Arrangement : Type 0
Arrangement = List ArtifactRow → List ArtifactRow

-- `ORDER BY idx ASC`: rows of one index come in the order of the arrangement.
unfoldable pub artifacts_of_run : Arrangement → List ArtifactRow → String → List ArtifactRow
artifacts_of_run arranged rows run_id =
    sort_by (λ (a b : ArtifactRow). leb a.key.idx b.key.idx)
      (arranged (filter (λ (r : ArtifactRow). r.key.run_id === run_id) rows))

-- `wrapper.json ?? wrapper`
abbrev index_in : Json → Option Json → Json
index_in inline none = inline
index_in inline (some null) = inline
index_in inline (some value) = value

abbrev index_of_inline : Option Json → Option Json
index_of_inline none = none
index_of_inline (some (obj fs)) = some (index_in (obj fs) (get fs "json"))
index_of_inline (some (arr xs)) = some (arr xs)
index_of_inline (some null) = none
index_of_inline (some (bool _)) = none
index_of_inline (some (num _)) = none
index_of_inline (some (str _)) = none

unfoldable pub find_index : List ArtifactRow → Option Json
find_index rows = elim (find (λ (r : ArtifactRow). r.artifact.kind === "artifact_index") rows) [
  | none ↦ none
  | some r ↦ index_of_inline r.artifact.inline
]

-- The value in a wrapper with a member `json`, or the whole value.
abbrev payload_of_inline : Option Json → Json
payload_of_inline none = null
payload_of_inline (some (obj fs)) = elim (get fs "json") [ none ↦ obj fs | some value ↦ value ]
payload_of_inline (some (arr xs)) = arr xs
payload_of_inline (some null) = null
payload_of_inline (some (bool b)) = bool b
payload_of_inline (some (num z)) = num z
payload_of_inline (some (str s)) = str s

abbrev has_uri : String → ArtifactRow → Bool
has_uri uri r = elim r.artifact.uri [
  | none ↦ false
  | some u ↦ if u === "" then false else u === uri
]

-- The last row with an address is the one in the map.
unfoldable pub artifact_at : List ArtifactRow → String → Option EvalArtifact
artifact_at rows uri =
    Option.map
      (λ (r : ArtifactRow). record { uri = uri; inline = payload_of_inline r.artifact.inline })
      (find (has_uri uri) (reverse rows))

abbrev pub index_or_throw : String → Option Json → Result Json
index_or_throw run_id none = err (plain ("artifact index missing for run " <> run_id))
index_or_throw run_id (some index) = ok index

module _ (p : Platform) (engines : Engines) (validators : Validators) (run_id : String)
    (checks : List EvalCheck) (arranged : Arrangement) (artifacts : List ArtifactRow) where
  -- What is saved, from the artifacts and the checks alone.
  unfoldable pub run_results : Result (List EvalCheckResult)
  run_results = do
    validators.assert_eval_checks checks
    let rows = artifacts_of_run arranged artifacts run_id
    index ← index_or_throw run_id (find_index rows)
    uris ← validators.assert_artifact_index index
    evaluate_checks p engines uris (artifact_at rows) checks
