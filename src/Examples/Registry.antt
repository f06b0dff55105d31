-- ===== src/Examples/Registry.antt =====
-- The theorems on recipes and canonical texts at concrete inputs.
use sisu_kodo.Prelude.{
  eq_iff, String, Bool, true, false, none, some, List, [], ◌∷◌, ◌≡◌, ◌↔◌, refl, arith, inl, ◌===◌,
  if◌then◌else◌,
}
use sisu_kodo.Prelude.Json.{Json, str, obj, end, field}
use sisu_kodo.Failure.{ok}
use sisu_kodo.Failure.Async.{pure, throw, ◌>>=◌, ◌>>◌}
use sisu_kodo.Hash.{Platform, canonicalize, sha256}
use sisu_kodo.Hash.Order.{in_object, swapped, canonicalize-Same}
use sisu_kodo.Recipes.Tables.{
  RecipeSpec, stable, RecipeVersionRow, Registry, find_version, find_stable, spec_json,
  fixture_json,
}
use sisu_kodo.Recipes.{
  asks, transaction, insert_fixture_row, insert_version_row, update_status, set_candidate,
  can_promote_stable, upsert_recipe, promote_in_transaction, promote_stable, check_fixture,
  insert_each, insert_recipe_fixtures, check_version, insert_version, insert_versions,
  import_bundle,
}
use sisu_kodo.Recipes.Growth.{Covered, IsStable}
use sisu_kodo.Recipes.Lifecycle.{
  RecipeOp, importing, nominating, promoting_stable, empty, perform, perform_all,
  perform_all-stable, promote_stable_iff,
}
use sisu_kodo.Recipes.Active.{find_stable-promote_stable}

abbrev pub first_letter : String → String → Bool
first_letter a b = if a === "b" then b === "b" else true

-- Keys are ordered, as far as "a" stands before "b"; a hash is its text.
abbrev pub plain_text : Platform
plain_text = record { stringify = λ v. "x"; locale_le = first_letter; sha256_hex = λ s. s }

abbrev greeting : RecipeSpec
greeting = record {
  id = "greet";
  v = "1";
  name = "Greeting";
  tags = none;
  form_schema = obj end;
  intent_tmpl = obj end;
  wf_entry = "RunIntent";
  queue = "intentQ";
  limits = record { max_steps = 3; max_fanout = 2; max_sbx_min = 5; max_tokens = 100 };
  eval = obj end ∷ [];
  fixtures = record { id = "f1"; form_data = obj end } ∷ [];
  prompts = obj end;
}

abbrev pub hashing : Platform
hashing = record plain_text { sha256_hex = λ s. "h" }

abbrev release : List RecipeOp
release = importing 7 (greeting ∷ []) ∷ nominating "greet" "1" ∷ promoting_stable "greet" "1" ∷ []

abbrev released : RecipeVersionRow
released = record {
  id = "greet";
  v = "1";
  hash = "h";
  status = stable;
  json = greeting;
  created_at = 7;
}

released_there : find_version (perform_all hashing release empty) "greet" "1" ≡ some released
unfolding perform_all perform import_bundle transaction insert_versions insert_version
    insert_version_row insert_recipe_fixtures insert_each insert_fixture_row check_fixture
    check_version asks set_candidate update_status promote_stable promote_in_transaction
    upsert_recipe find_version sha256 canonicalize spec_json fixture_json pure throw ◌>>=◌ ◌>>◌
released_there = refl

perform_all-stable_example :
    (find_version
        (perform_all hashing
          (importing 9 (greeting ∷ []) ∷ nominating "greet" "1" ∷ [])
          (perform_all hashing release empty))
        "greet"
        "1"
      ≡ some released)
    × Covered (perform_all hashing release empty) released
perform_all-stable_example =
    perform_all-stable hashing release (importing 9 (greeting ∷ []) ∷ nominating "greet" "1" ∷ [])
      "greet" "1" released released_there refl

abbrev nominated : List RecipeOp
nominated = importing 7 (greeting ∷ []) ∷ nominating "greet" "1" ∷ []

promote_stable_iff_example :
    ((promote_stable "greet" "1" (perform_all hashing release empty)).0 ≡ ok false)
    ↔ (can_promote_stable (perform_all hashing release empty) "greet" "1" ≡ false)
promote_stable_iff_example = promote_stable_iff hashing release "greet" "1"

abbrev ready_registry : Registry
ready_registry = perform_all hashing nominated empty

promotion_succeeds : (promote_stable "greet" "1" ready_registry).0 ≡ ok true
unfolding perform_all perform import_bundle transaction insert_versions insert_version
    insert_version_row insert_recipe_fixtures insert_each insert_fixture_row check_fixture
    check_version asks set_candidate update_status promote_stable promote_in_transaction
    upsert_recipe find_version sha256 canonicalize spec_json fixture_json pure throw ◌>>=◌ ◌>>◌
promotion_succeeds = refl

find_stable-promote_stable_example :
    (r : RecipeVersionRow) × (find_stable (promote_stable "greet" "1" ready_registry).1 "greet"
      ≡ some r)
    × (r.id ≡ "greet")
    × (r.v ≡ "1")
    × IsStable r
find_stable-promote_stable_example =
    find_stable-promote_stable "greet" "1" ready_registry promotion_succeeds

first_letter_trans :
    (i j k : String) → first_letter i j ≡ true → first_letter j k ≡ true → first_letter i k ≡ true
first_letter_trans i j k h e = ground (arith, h, e, eq_iff i "b", eq_iff j "b", eq_iff k "b")

abbrev in_order : Json
in_order = obj (field "a" (str "1") (field "b" (str "2") end))

abbrev out_of_order : Json
out_of_order = obj (field "b" (str "2") (field "a" (str "1") end))

canonicalize-Same_example :
    (canonicalize plain_text in_order ≡ canonicalize plain_text out_of_order)
    × (sha256 plain_text in_order ≡ sha256 plain_text out_of_order)
canonicalize-Same_example =
    canonicalize-Same plain_text first_letter_trans (in_object (swapped (inl (refl, refl))))
