-- ===== src/Recipes.antt =====
-- Operations on the registry of recipes: src/db/recipeRepo.ts and insertRecipeFixtures of
-- src/db/fixtureRepo.ts. A transaction is a change of the registry that is kept or dropped as a whole;
-- the constraints of the tables are those of db/migrations.
pub mod Tables
pub mod Growth
pub mod Imports
pub mod Restated
pub mod Promotion
pub mod Lifecycle
pub mod Active
use sisu_kodo.Prelude.{
  ℕ, String, Bool, true, false, not, ◌&&◌, ◌||◌, Option, none, some, List, [], ◌∷◌, ◌++◌, ◌===◌,
  ◌==◌, filter, find, any, count, length, update_where, ltb, leb, map, ◌<>◌, if◌then◌else◌,
}
use sisu_kodo.Prelude.Sorting.{sort_by}
use sisu_kodo.Failure.{Error, plain, Result, ok, err}
use sisu_kodo.Failure.Async.{Async, pure, throw, ◌>>=◌, ◌>>◌}
use sisu_kodo.Hash.{Platform, canonicalize, sha256}
use sisu_kodo.Prelude.Json.{str}
use Tables.{
  RecipeSpec, RecipeFixture, RecipeStatus, draft, candidate, stable, RecipeVersionRow,
  RecipeFixtureRow, RecipeRow, Registry, is_draft, is_candidate, is_stable, is_version,
  is_fixture_of, set_status, find_version, list_recipe_fixtures, fixture_json, spec_json,
}

abbrev pub at_version : String → String → String
at_version id v = id <> ("@" <> v)

unfoldable pub asks : {A : Type 0} → (Registry → A) → Async Registry A
asks f w = (ok (f w), w)

abbrev pub settle : {A : Type 0} → (A → Bool) → Registry → Result A → Registry → Result A × Registry
settle commits before (err e) after = (err e, before)
settle commits before (ok x) after = (ok x, if commits x then after else before)

-- BEGIN … COMMIT, or ROLLBACK where the result says so and where the body throws.
unfoldable pub transaction : {A : Type 0} → (A → Bool) → Async Registry A → Async Registry A
transaction commits m w = settle commits w (m w).0 (m w).1

abbrev pub is_fixture : String → String → String → RecipeFixtureRow → Bool
is_fixture id v fixture_id f = is_fixture_of id v f && f.fixture_id === fixture_id

-- INSERT … ON CONFLICT (recipe_id, v, fixture_id) DO NOTHING
unfoldable pub insert_fixture_row : String → String → RecipeFixture → Async Registry (Unit {0})
insert_fixture_row id v fixture w = (
  ok tt,
  if any (is_fixture id v fixture.id) w.fixtures then w else record w {
    fixtures =
        w.fixtures
        ++ record { recipe_id = id; v = v; fixture_id = fixture.id; json = fixture } ∷ [];
  },
)

unfoldable pub duplicate_hash : Error
duplicate_hash =
    plain "duplicate key value violates unique constraint \"recipe_versions_id_hash_key\""

-- INSERT … ON CONFLICT (id, v) DO NOTHING; the hash is unique among the versions of a recipe.
unfoldable pub insert_version_row : RecipeVersionRow → Async Registry (Unit {0})
unfolding duplicate_hash
insert_version_row row w =
    if any (is_version row.id row.v) w.versions
    then (ok tt, w)
    else if any (λ (r : RecipeVersionRow). r.id === row.id && r.hash === row.hash) w.versions
    then (err duplicate_hash, w)
    else (ok tt, record w { versions = w.versions ++ row ∷ [] })

-- UPDATE app.recipe_versions SET status = … WHERE id = … AND v = … AND status = …; the rows that it hit.
unfoldable pub update_status :
    (RecipeStatus → Bool) → RecipeStatus → String → String → Async Registry ℕ
update_status from to id v w =
    let hits = λ (r : RecipeVersionRow). is_version id v r && from r.status in
    (
      ok (count hits w.versions),
      record w { versions = update_where hits (set_status to) w.versions },
    )

unfoldable pub set_candidate : String → String → Async Registry Bool
set_candidate id v = do updated ← update_status is_draft candidate id v; pure (updated == 1)

unfoldable pub can_promote_stable : Registry → String → String → Bool
unfolding find_version list_recipe_fixtures
can_promote_stable w id v = elim (find_version w id v) [
  | none ↦ false
  | some r ↦
      is_candidate r.status
      && (leb 1 (length r.json.eval) && leb 1 (length (list_recipe_fixtures w id v)))
]

-- The evaluations of a version and its fixtures, or nothing if the version is not there.
abbrev pub coverage : String → String → Registry → Option (ℕ × ℕ)
coverage id v w = elim (find_version w id v) [
  | none ↦ none
  | some r ↦ some (length r.json.eval, count (is_fixture_of id v) w.fixtures)
]

abbrev pub recipe_of : RecipeSpec → RecipeRow
recipe_of spec = record {
  id = spec.id;
  name = spec.name;
  version = 1;
  queue_name = spec.queue;
  max_concurrency = spec.limits.max_fanout;
  max_steps = spec.limits.max_steps;
  max_sandbox_minutes = spec.limits.max_sbx_min;
  spec = spec;
  active_v = none;
}

-- ON CONFLICT (id) DO UPDATE: the name and the version number stay.
abbrev pub refresh : RecipeRow → RecipeRow → RecipeRow
refresh row r = record row { name = r.name; version = r.version }

abbrev pub legal : RecipeRow → Bool
legal row =
    (leb 1 row.max_concurrency && (leb 1 row.max_steps && leb 1 row.max_sandbox_minutes))
    && any (λ q. q === row.queue_name) ("compileQ" ∷ "sbxQ" ∷ "controlQ" ∷ "intentQ" ∷ [])

-- The checks of the table, and (name, version) is unique.
unfoldable pub upsert_recipe : RecipeRow → Async Registry (Unit {0})
upsert_recipe row w =
    if not (legal row)
    then (err (plain "new row for relation \"recipes\" violates a check constraint"), w)
    else if any (λ (r : RecipeRow). r.id === row.id) w.recipes
    then (
      ok tt,
      record w {
        recipes = update_where (λ (r : RecipeRow). r.id === row.id) (refresh row) w.recipes;
      },
    )
    else if any (λ (r : RecipeRow). r.name === row.name && r.version == row.version) w.recipes
    then (
      err (plain "duplicate key value violates unique constraint \"recipes_name_version_key\""),
      w,
    )
    else (ok tt, record w { recipes = w.recipes ++ row ∷ [] })

abbrev pub write_recipe : String → String → Option RecipeVersionRow → Async Registry Bool
write_recipe id v none = throw (plain "Cannot read properties of undefined (reading 'json')")
write_recipe id v (some r) =
    upsert_recipe (record (recipe_of r.json) { id = id; active_v = some v }) >> pure true

-- After the coverage query.
abbrev pub promote_covered : String → String → Option (ℕ × ℕ) → Async Registry Bool
promote_covered id v none = pure false
promote_covered id v (some (evals, fixtures)) =
    if ltb evals 1 || ltb fixtures 1
    then pure false
    else (asks (λ w. find_version w id v) >>= write_recipe id v)

unfoldable pub promote_in_transaction : String → String → Async Registry Bool
promote_in_transaction id v = do
  promoted ← update_status is_candidate stable id v
  if not (promoted == 1) then pure false else (asks (coverage id v) >>= promote_covered id v)

unfoldable pub promote_stable : String → String → Async Registry Bool
promote_stable id v = transaction (λ promoted. promoted) (promote_in_transaction id v)

abbrev pub refuse_stable : Bool → RecipeSpec → Async Registry (Unit {0})
refuse_stable true recipe =
    throw (plain ("stable recipe version is immutable: " <> at_version recipe.id recipe.v))
refuse_stable false recipe = pure tt

module _ (p : Platform) where
  unfoldable pub check_fixture :
      String → String → RecipeFixture → Option RecipeFixtureRow → Async Registry (Unit {0})
  check_fixture id v fixture none = throw (
      plain
        ("fixture insert conflict but missing row: " <> (at_version id v <> (":" <> fixture.id))))
  check_fixture id v fixture (some row) =
      if canonicalize p (fixture_json row.json) === canonicalize p (fixture_json fixture)
      then pure tt
      else throw (plain ("fixture divergence: " <> (at_version id v <> (":" <> fixture.id))))

  unfoldable pub insert_each : String → String → List RecipeFixture → Async Registry (Unit {0})
  insert_each id v [] = pure tt
  insert_each id v (f ∷ fs) = do
    insert_fixture_row id v f
    existing ← asks (λ (w : Registry). find (is_fixture id v f.id) w.fixtures)
    check_fixture id v f existing
    insert_each id v fs

  unfoldable pub insert_recipe_fixtures :
      String → String → List RecipeFixture → Async Registry (Unit {0})
  insert_recipe_fixtures id v fixtures =
      insert_each id v (sort_by (λ (a b : RecipeFixture). p.locale_le a.id b.id) fixtures)

  unfoldable pub check_version :
      RecipeSpec → String → Option RecipeVersionRow → Async Registry RecipeVersionRow
  check_version recipe hash none =
      throw (plain ("failed to persist recipe version: " <> at_version recipe.id recipe.v))
  check_version recipe hash (some row) =
      if row.hash === hash
      then pure row
      else throw (plain ("recipe hash mismatch for " <> at_version recipe.id recipe.v))

  unfoldable pub insert_version : ℕ → RecipeSpec → RecipeStatus → Async Registry RecipeVersionRow
  insert_version now recipe status = do
    let hash = sha256 p (str (canonicalize p (spec_json recipe)))
    stable_exists ← asks (λ (w : Registry).
        any (λ (r : RecipeVersionRow). is_version recipe.id recipe.v r && is_stable r.status)
          w.versions)
    refuse_stable stable_exists recipe
    insert_version_row (record {
      id = recipe.id;
      v = recipe.v;
      hash = hash;
      status = status;
      json = recipe;
      created_at = now;
    })
    insert_recipe_fixtures recipe.id recipe.v recipe.fixtures
    row ← asks (λ w. find_version w recipe.id recipe.v)
    check_version recipe hash row

  unfoldable pub insert_versions : ℕ → List RecipeSpec → Async Registry (List RecipeVersionRow)
  insert_versions now [] = pure []
  insert_versions now (s ∷ rest) = do
    inserted ← insert_version now s draft
    others ← insert_versions now rest
    pure (inserted ∷ others)

  unfoldable pub import_bundle : ℕ → List RecipeSpec → Async Registry (List RecipeVersionRow)
  import_bundle now bundle = do
    out ← transaction (λ _. true) (insert_versions now bundle)
    pure (sort_by (λ (a b : RecipeVersionRow). p.locale_le a.v b.v) out)

-- `ORDER BY v ASC`, in the database's collation.
unfoldable pub export_bundle : (String → String → Bool) → Registry → String → List RecipeSpec
export_bundle collates w id = map RecipeVersionRow.json (
    sort_by (λ (a b : RecipeVersionRow). collates a.v b.v)
      (filter (λ (r : RecipeVersionRow). r.id === id) w.versions))
