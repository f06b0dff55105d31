-- ===== src/Recipes/Tables.antt =====
-- The registry of recipes: the rows of src/db/recipeRepo.ts and src/db/fixtureRepo.ts, the recipes of
-- src/contracts/recipe.schema.ts, and the statements on one table. What the program does not read of a
-- recipe is JSON. The key of a version is its id and its v, as in the primary key of the table.
use sisu_kodo.Prelude.{
  ℕ, String, Bool, true, false, ◌&&◌, Option, none, some, List, [], ◌∷◌, ◌===◌, find, any, filter,
  leb, ltb, if◌then◌else◌,
}
use sisu_kodo.Prelude.Json.{Json, num, str, arr, obj, pos, Items, nil, cons, Fields, end, field}

pub record RecipeLimits : Type 0 where
  pub max_steps : ℕ
  pub max_fanout : ℕ
  pub max_sbx_min : ℕ
  pub max_tokens : ℕ

pub record RecipeFixture : Type 0 where
  pub id : String
  pub form_data : Json

pub record RecipeSpec : Type 0 where
  pub id : String
  pub v : String
  pub name : String
  pub tags : Option Json
  pub form_schema : Json
  pub intent_tmpl : Json
  pub wf_entry : String
  pub queue : String
  pub limits : RecipeLimits
  pub eval : List Json
  pub fixtures : List RecipeFixture
  pub prompts : Json

pub data RecipeStatus : Type 0 where
  draft candidate stable : RecipeStatus

pub record RecipeVersionRow : Type 0 where
  pub id : String
  pub v : String
  pub hash : String
  pub status : RecipeStatus
  pub json : RecipeSpec
  pub created_at : ℕ

pub record RecipeFixtureRow : Type 0 where
  pub recipe_id : String
  pub v : String
  pub fixture_id : String
  pub json : RecipeFixture

pub record RecipeRow : Type 0 where
  pub id : String
  pub name : String
  pub version : ℕ
  pub queue_name : String
  pub max_concurrency : ℕ
  pub max_steps : ℕ
  pub max_sandbox_minutes : ℕ
  pub spec : RecipeSpec
  pub active_v : Option String

pub record Registry : Type 0 where
  pub versions : List RecipeVersionRow
  pub fixtures : List RecipeFixtureRow
  pub recipes : List RecipeRow

abbrev pub is_draft : RecipeStatus → Bool
is_draft draft = true
is_draft _ = false

abbrev pub is_candidate : RecipeStatus → Bool
is_candidate candidate = true
is_candidate _ = false

abbrev pub is_stable : RecipeStatus → Bool
is_stable stable = true
is_stable _ = false

-- `WHERE id = $1 AND v = $2`
abbrev pub is_version : String → String → RecipeVersionRow → Bool
is_version id v r = r.id === id && r.v === v

abbrev pub is_fixture_of : String → String → RecipeFixtureRow → Bool
is_fixture_of id v f = f.recipe_id === id && f.v === v

abbrev pub set_status : RecipeStatus → RecipeVersionRow → RecipeVersionRow
set_status s r = record r { status = s }

unfoldable pub find_version : Registry → String → String → Option RecipeVersionRow
find_version w id v = find (is_version id v) w.versions

abbrev pub active_in : List RecipeRow → RecipeVersionRow → Bool
active_in rows r =
    any
      (λ (recipe : RecipeRow).
        recipe.id === r.id && elim recipe.active_v [ none ↦ false | some v ↦ v === r.v ])
      rows

-- JOIN app.recipes r ON r.id = rv.id AND r.active_v = rv.v WHERE rv.id = $1 AND rv.status = 'stable'
unfoldable pub find_stable : Registry → String → Option RecipeVersionRow
find_stable w id =
    find (λ (r : RecipeVersionRow). (r.id === id && is_stable r.status) && active_in w.recipes r)
      w.versions

-- `ORDER BY version DESC LIMIT 1`
abbrev newest : RecipeRow → Option RecipeRow → RecipeRow
newest r none = r
newest r (some best) = if ltb r.version best.version then best else r

newest_named : List RecipeRow → String → Option RecipeRow
newest_named [] name = none
newest_named (r ∷ rows) name =
    let rest = newest_named rows name in if r.name === name then some (newest r rest) else rest

unfoldable pub find_recipe_by_name : Registry → String → Option ℕ → Option RecipeRow
unfolding newest_named
find_recipe_by_name w name (some version) =
    find (λ (r : RecipeRow). r.name === name && (leb r.version version && leb version r.version))
      w.recipes
find_recipe_by_name w name none = newest_named w.recipes name

unfoldable pub list_recipe_fixtures : Registry → String → String → List RecipeFixtureRow
list_recipe_fixtures w id v = filter (is_fixture_of id v) w.fixtures

abbrev given_field : String → Option Json → Fields → Fields
given_field name none fields = fields
given_field name (some value) fields = field name value fields

unfoldable pub fixture_json : RecipeFixture → Json
fixture_json f = obj (field "id" (str f.id) (field "formData" f.form_data end))

abbrev pub items : List Json → Items
items [] = nil
items (x ∷ xs) = cons x (items xs)

fixture_items : List RecipeFixture → Items
unfolding fixture_json
fixture_items [] = nil
fixture_items (f ∷ fs) = cons (fixture_json f) (fixture_items fs)

limits_json : RecipeLimits → Json
limits_json l = obj (
    field "maxSteps" (num (pos l.max_steps)) (
      field "maxFanout" (num (pos l.max_fanout)) (
        field "maxSbxMin" (num (pos l.max_sbx_min))
          (field "maxTokens" (num (pos l.max_tokens)) end))))

-- A recipe as the value that is hashed.
unfoldable pub spec_json : RecipeSpec → Json
unfolding fixture_items limits_json
spec_json s = obj (
    field "id" (str s.id) (
      field "v" (str s.v) (
        field "name" (str s.name) (
          given_field "tags" s.tags (
            field "formSchema" s.form_schema (
              field "intentTmpl" s.intent_tmpl (
                field "wfEntry" (str s.wf_entry) (
                  field "queue" (str s.queue) (
                    field "limits" (limits_json s.limits) (
                      field "eval" (arr (items s.eval)) (
                        field "fixtures" (arr (fixture_items s.fixtures))
                          (field "prompts" s.prompts end))))))))))))
