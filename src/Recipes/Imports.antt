-- ===== src/Recipes/Imports.antt =====
-- Importing recipes lets the registry grow: insertVersion and importBundle of src/db/recipeRepo.ts,
-- insertRecipeFixtures of src/db/fixtureRepo.ts.
use sisu_kodo.Prelude.{
  ℕ, String, Bool, true, false, ◌&&◌, Option, none, some, List, [], ◌∷◌, ◌++◌, ◌≡◌, inl, inr, refl,
  sym, arith, any, Bool-cases, ◌===◌, if◌then◌else◌, eq_iff,
}
use sisu_kodo.Failure.Async.{Async}
use sisu_kodo.Hash.{Platform}
use sisu_kodo.Recipes.Tables.{
  RecipeSpec, RecipeFixture, draft, RecipeVersionRow, RecipeFixtureRow, Registry, is_stable,
  is_version, is_fixture_of, find_version,
}
use sisu_kodo.Recipes.{
  is_fixture, insert_fixture_row, insert_version_row, check_fixture, insert_each,
  insert_recipe_fixtures, refuse_stable, check_version, insert_version, insert_versions,
  import_bundle,
}
use sisu_kodo.Recipes.Growth.{
  Grows, Grows-refl, Grows-if, Growing, growth, Growing-pure, Growing-asks, Growing-bind,
  Growing-then, Growing-transaction, find-concat, count-concat-le, count-concat_fresh,
  count-concat_other,
}

more_fixtures :
    (w : Registry) (f : RecipeFixtureRow) → Grows w (record w { fixtures = w.fixtures ++ f ∷ [] })
unfolding find_version
more_fixtures w f = record {
  distinct = λ d. d;
  frozen = λ id v r h s. h;
  fixtures = λ id v. count-concat-le (is_fixture_of id v) w.fixtures f;
  covered = λ id v r h s. inr h;
}

insert_fixture_row-Growing :
    (id v : String) (fixture : RecipeFixture) → Growing (insert_fixture_row id v fixture)
unfolding insert_fixture_row
insert_fixture_row-Growing id v fixture = record {
  grows = λ w. elim (Bool-cases (any (is_fixture id v fixture.id) w.fixtures)) [
    | inl there ↦ rw there (Grows-refl w)
    | inr fresh ↦ rw fresh (more_fixtures w _)
  ];
}

one_more :
    (w : Registry) (row : RecipeVersionRow)
    → is_stable row.status ≡ false
    → any (is_version row.id row.v) w.versions ≡ false
    → Grows w (record w { versions = w.versions ++ row ∷ [] })
unfolding find_version
one_more w row fresh absent = record {
  distinct = λ d i n. elim (Bool-cases (is_version i n row)) [
    | inl own ↦
        let key : (row.id ≡ i) × (row.v ≡ n) =
          (ground (arith, own, eq_iff row.id i), ground (arith, own, eq_iff row.v n)) in
        count-concat_fresh (is_version i n) w.versions row (rw ((sym key.0), (sym key.1)) absent)
    | inr other ↦ omega (arith, d i n, count-concat_other (is_version i n) w.versions row other)
  ];
  frozen = λ id v r h s. ground (arith, find-concat (is_version id v) w.versions row);
  fixtures = λ id v. omega arith;
  covered = λ id v r h s. inr (ground (arith, find-concat (is_version id v) w.versions row));
}

insert_version_row-Growing :
    (row : RecipeVersionRow) → is_stable row.status ≡ false → Growing (insert_version_row row)
unfolding insert_version_row
insert_version_row-Growing row fresh = record {
  grows = λ w. elim (Bool-cases (any (is_version row.id row.v) w.versions)) [
    | inl there ↦ rw there (Grows-refl w)
    | inr absent ↦ rw absent (
        Grows-if (any (λ (r : RecipeVersionRow). r.id === row.id && r.hash === row.hash) w.versions)
          _ _ (Grows-refl w) (one_more w row fresh absent))
  ];
}

Growing-if :
    {A : Type 0} (b : Bool) (m k : Async Registry A)
    → Growing m
    → Growing k
    → Growing (if b then m else k)
Growing-if true m k g h = g
Growing-if false m k g h = h

module _ (p : Platform) where
  check_fixture-Growing :
      (id v : String) (f : RecipeFixture) (existing : Option RecipeFixtureRow)
      → Growing (check_fixture p id v f existing)
  unfolding check_fixture
  check_fixture-Growing id v f none = search growth
  check_fixture-Growing id v f (some row) = search (growth, Growing-if)

  insert_each-Growing :
      (id v : String) (fixtures : List RecipeFixture) → Growing (insert_each p id v fixtures)
  unfolding insert_each
  insert_each-Growing id v [] = search growth
  insert_each-Growing id v (f ∷ fs) = Growing-then _ _ (insert_fixture_row-Growing id v f) (
      Growing-bind _ _ (Growing-asks _) λ existing.
        Growing-then _ _ (check_fixture-Growing id v f existing) (insert_each-Growing id v fs))

  refuse_stable-Growing : (b : Bool) (recipe : RecipeSpec) → Growing (refuse_stable b recipe)
  refuse_stable-Growing true recipe = search growth
  refuse_stable-Growing false recipe = search growth

  check_version-Growing :
      (recipe : RecipeSpec) (hash : String) (row : Option RecipeVersionRow)
      → Growing (check_version p recipe hash row)
  unfolding check_version
  check_version-Growing recipe hash none = search growth
  check_version-Growing recipe hash (some row) = search (growth, Growing-if)

  insert_version-Growing :
      (now : ℕ) (recipe : RecipeSpec) → Growing (insert_version p now recipe draft)
  unfolding insert_version insert_recipe_fixtures
  insert_version-Growing now recipe = Growing-bind _ _ (Growing-asks _) λ stable_exists.
      Growing-then _ _ (refuse_stable-Growing stable_exists recipe) (
        Growing-then _ _ (insert_version_row-Growing _ refl) (
          Growing-then _ _ (insert_each-Growing recipe.id recipe.v _)
            (Growing-bind _ _ (Growing-asks _) λ row. check_version-Growing recipe _ row)))

  insert_versions-Growing :
      (now : ℕ) (bundle : List RecipeSpec) → Growing (insert_versions p now bundle)
  unfolding insert_versions
  insert_versions-Growing now [] = search growth
  insert_versions-Growing now (s ∷ rest) =
      search (growth, insert_version-Growing now s, insert_versions-Growing now rest)

  pub import_bundle-Growing :
      (now : ℕ) (bundle : List RecipeSpec) → Growing (import_bundle p now bundle)
  unfolding import_bundle
  import_bundle-Growing now bundle =
      Growing-bind _ _ (Growing-transaction _ _ (insert_versions-Growing now bundle))
        λ out. Growing-pure _
