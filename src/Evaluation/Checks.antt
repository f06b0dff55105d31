-- ===== src/Evaluation/Checks.antt =====
-- The checks of a recipe on the artifacts of a run: src/eval/runner.ts, with the shapes of
-- src/contracts/eval.schema.ts. The engine of regular expressions, the compiler of JSON schemas and the
-- code units of a text are parameters; a number of rows is natural, and so is a greatest distance.
use sisu_kodo.Prelude.{
  ℕ, suc, String, Bool, true, false, not, ◌&&◌, Option, none, some, List, [], ◌∷◌, ◌++◌, ◌==◌, Text,
  codes, trim, starts_with, any, filter, length, leb, ◌<>◌, decimal, if◌then◌else◌,
}
use mathlib.Core.Option
use sisu_kodo.Prelude.Json.{Json, null, bool, num, str, arr, obj, pos, Items, nil, cons, end, field}
use sisu_kodo.Prelude.Sorting.{sort_by}
use sisu_kodo.Failure.{Result, ok, ◌>>=◌, ◌>>◌}
use sisu_kodo.Hash.{Platform, canonicalize}
use sisu_kodo.Evaluation.Distance.{edit_distance}

pub data EvalCheck : Type 0 where
  file_exists : (id glob : String) → EvalCheck
  jsonschema : (id artifact : String) → Json → EvalCheck
  rowcount_gte : (id artifact : String) → ℕ → EvalCheck
  regex : (id artifact re : String) → EvalCheck
  diff_le : (id left right : String) → ℕ → EvalCheck

pub record EvalCheckResult : Type 0 where
  pub check_id : String
  pub pass : Bool
  pub reason : String
  pub payload : Option Json

pub record EvalArtifact : Type 0 where
  pub uri : String
  pub inline : Json

-- `matches` tests a text by an expression, `validates` a value by a schema; either may reject what it
-- is given to compile.
pub record Engines : Type 0 where
  pub matches : Text → String → Result Bool
  pub validates : Json → Json → Result Bool
  pub units : String → Text
  pub assert_eval_check_result : EvalCheckResult → Result (Unit {0})
  pub assert_eval_check_results : List EvalCheckResult → Result (Unit {0})

abbrev pub check_id : EvalCheck → String
check_id (file_exists id _) = id
check_id (jsonschema id _ _) = id
check_id (rowcount_gte id _ _) = id
check_id (regex id _ _) = id
check_id (diff_le id _ _ _) = id

-- The characters that a glob has and a regular expression reads otherwise.
abbrev special : ℕ → Bool
special c = any (λ s. s == c) (codes ".+^${}()|[]\\")

glob_body : Text → Text
glob_body [] = []
glob_body (c ∷ s) =
    let rest = glob_body s in
    if special c
    then b'\\' ∷ c ∷ rest
    else if c == b'*'
    then b'.' ∷ b'*' ∷ rest
    else if c == b'?'
    then b'.' ∷ rest
    else c ∷ rest

unfoldable pub glob_to_regex : String → Text
unfolding glob_body
glob_to_regex glob = b'^' ∷ glob_body (codes glob) ++ b'$' ∷ []

-- `value.split(/\r?\n/)`
abbrev in_first : ℕ → List Text → List Text
in_first c [] = (c ∷ []) ∷ []
in_first c (line ∷ more) = (c ∷ line) ∷ more

unfoldable pub lines : Text → List Text
lines [] = [] ∷ []
lines (c ∷ s) =
    let more = lines s in
    if c == 10
    then [] ∷ more
    else if c == 13 && starts_with s (10 ∷ [])
    then more
    else in_first c more

abbrev blank : Text → Bool
blank [] = true
blank (_ ∷ _) = false

abbrev items_length : Items → ℕ
items_length nil = 0
items_length (cons x xs) = suc (items_length xs)

unfoldable pub count_rows : Option Json → ℕ
unfolding lines
count_rows (some (arr xs)) = items_length xs
count_rows (some (str s)) =
    if blank (trim (codes s))
    then 0
    else length (filter (λ line. not (blank (trim line))) (lines (codes s)))
count_rows (some (obj _)) = 1
count_rows (some null) = 0
count_rows (some (bool _)) = 0
count_rows (some (num _)) = 0
count_rows none = 0

module _ (p : Platform) (engines : Engines) where
  abbrev pub to_stable_text : Json → String
  to_stable_text (str s) = s
  to_stable_text null = canonicalize p null
  to_stable_text (bool b) = canonicalize p (bool b)
  to_stable_text (num z) = canonicalize p (num z)
  to_stable_text (arr xs) = canonicalize p (arr xs)
  to_stable_text (obj fs) = canonicalize p (obj fs)

  abbrev pub verdict : String → Bool → String → String → Option Json → EvalCheckResult
  verdict id pass passed missed payload = record {
    check_id = id;
    pass = pass;
    reason = if pass then passed else missed;
    payload = payload;
  }

  abbrev pub failed : String → String → EvalCheckResult
  failed id reason = record { check_id = id; pass = false; reason = reason; payload = none }

  any_match : Text → List String → Result Bool
  any_match re [] = ok false
  any_match re (uri ∷ uris) = do
    hit ← engines.matches re uri
    let rest = any_match re uris
    if hit then ok true else rest

  unfoldable pub check_schema :
      String → String → Json → Option EvalArtifact → Result EvalCheckResult
  check_schema id artifact schema none = ok (failed id ("jsonschema:artifact_missing:" <> artifact))
  check_schema id artifact schema (some art) = do
    valid ← engines.validates schema art.inline
    ok (verdict id valid ("jsonschema:ok:" <> artifact) ("jsonschema:invalid:" <> artifact) none)

  check_rows : String → ℕ → ℕ → EvalCheckResult
  check_rows id n rows =
      verdict id (leb n rows) ("rowcount_gte:ok:" <> (decimal rows <> (">=" <> decimal n)))
        ("rowcount_gte:fail:" <> (decimal rows <> ("<" <> decimal n)))
        (some (obj (field "rows" (num (pos rows)) (field "min" (num (pos n)) end))))

  unfoldable pub check_regex :
      String → String → String → Option EvalArtifact → Result EvalCheckResult
  check_regex id artifact re none = ok (failed id ("regex:artifact_missing:" <> artifact))
  check_regex id artifact re (some art) = do
    pass ← engines.matches (codes re) (to_stable_text art.inline)
    ok (verdict id pass ("regex:ok:" <> artifact) ("regex:miss:" <> artifact) none)

  abbrev pub text_of : EvalArtifact → Text
  text_of art = engines.units (to_stable_text art.inline)

  unfoldable pub check_diff :
      String → String → String → ℕ → Option EvalArtifact → Option EvalArtifact → EvalCheckResult
  check_diff id left right max (some a) (some b) =
      let dist = edit_distance (text_of a) (text_of b) max in
      verdict id (leb dist max) ("diff_le:ok:" <> (decimal dist <> ("<=" <> decimal max)))
        ("diff_le:fail:" <> (decimal dist <> (">" <> decimal max)))
        (some (obj (field "distance" (num (pos dist)) (field "max" (num (pos max)) end))))
  check_diff id left right max (some a) none =
      failed id ("diff_le:artifact_missing:" <> (left <> ("|" <> right)))
  check_diff id left right max none b =
      failed id ("diff_le:artifact_missing:" <> (left <> ("|" <> right)))

  -- `uris` are those of the index, `get` finds an artifact by its address.
  unfoldable pub evaluate_check :
      List String → (String → Option EvalArtifact) → EvalCheck → Result EvalCheckResult
  unfolding any_match check_schema check_rows check_regex check_diff glob_to_regex count_rows
  evaluate_check uris get (file_exists id glob) = do
    hit ← any_match (glob_to_regex glob) uris
    ok (verdict id hit ("file_exists:ok:" <> glob) ("file_exists:missing:" <> glob) none)
  evaluate_check uris get (jsonschema id artifact schema) =
      check_schema id artifact schema (get artifact)
  evaluate_check uris get (rowcount_gte id artifact n) =
      ok (check_rows id n (count_rows (Option.map EvalArtifact.inline (get artifact))))
  evaluate_check uris get (regex id artifact re) = check_regex id artifact re (get artifact)
  evaluate_check uris get (diff_le id left right max) =
      ok (check_diff id left right max (get left) (get right))

  unfoldable pub evaluate_each :
      List String → (String → Option EvalArtifact) → List EvalCheck → Result (List EvalCheckResult)
  unfolding evaluate_check
  evaluate_each uris get [] = ok []
  evaluate_each uris get (check ∷ checks) = do
    result ← evaluate_check uris get check
    engines.assert_eval_check_result result
    results ← evaluate_each uris get checks
    ok (result ∷ results)

  unfoldable pub evaluate_checks :
      List String → (String → Option EvalArtifact) → List EvalCheck → Result (List EvalCheckResult)
  unfolding evaluate_each
  evaluate_checks uris get checks = do
    results ←
        evaluate_each uris get
          (sort_by (λ (a b : EvalCheck). p.locale_le (check_id a) (check_id b)) checks)
    engines.assert_eval_check_results results
    ok results
