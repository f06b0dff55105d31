-- ===== src/Recipes/Promotion.antt =====
-- Promoting a version lets the registry grow: promoteStable of src/db/recipeRepo.ts.
use sisu_kodo.Prelude.{
  ℕ, ◌≤◌, String, Bool, true, false, not, ◌&&◌, ◌||◌, Option, none, some, List, ◌≡◌, ◌⊎◌, inl, inr,
  refl, sym, ◌∙◌, arith, any, count, length, Bool-cases, ◌===◌, ◌==◌, ltb, if◌then◌else◌, eq_iff,
}
use mathlib.Core.Option
use sisu_kodo.Failure.{Error, Result, ok, err}
use sisu_kodo.Failure.Async.{pure, continue, ◌>>=◌, ◌>>◌}
use sisu_kodo.Recipes.Tables.{
  stable, RecipeVersionRow, RecipeRow, Registry, is_candidate, is_version, is_fixture_of,
  set_status, find_version,
}
use sisu_kodo.Recipes.{
  recipe_of, asks, settle, transaction, update_status, coverage, upsert_recipe, legal, write_recipe,
  promote_covered, promote_in_transaction, promote_stable,
}
use sisu_kodo.Recipes.Growth.{Grows, Grows-refl, Growing, find-holds, Covered}
use sisu_kodo.Recipes.Restated.{hits, restated, find-restated, restated-Distinct, restated-frozen}

abbrev pub enough : Option (ℕ × ℕ) → Bool
enough none = false
enough (some (evals, fixtures)) = not (ltb evals 1 || ltb fixtures 1)

-- The version is a candidate, and has evaluations and fixtures.
abbrev pub ready : Registry → String → String → Bool
ready w id v =
    (count (hits is_candidate id v) w.versions == 1)
    && enough (coverage id v (restated is_candidate stable id v w))

if_case : {A : Type 0} (P : A → Type 0) (b : Bool) (x y : A) → P x → P y → P (if b then x else y)
if_case P true x y p q = p
if_case P false x y p q = q

-- How an upsert ends.
data Upserts (w : Registry) : Result (Unit {0}) × Registry → Type 0 where
  refused_by_table : (e : Error) → Upserts w (err e, w)
  upserted : (recipes : List RecipeRow) → Upserts w (ok tt, record w { recipes = recipes })

upsert_recipe-Upserts : (row : RecipeRow) (w : Registry) → Upserts w (upsert_recipe row w)
unfolding upsert_recipe
upsert_recipe-Upserts row w = if_case (Upserts w) (not (legal row)) _ _ (refused_by_table _) (
    if_case (Upserts w) (any (λ (r : RecipeRow). r.id === row.id) w.recipes) _ _ (upserted _) (
      if_case (Upserts w)
        (any (λ (r : RecipeRow). r.name === row.name && r.version == row.version) w.recipes) _ _
        (refused_by_table _) (upserted _)))

module _ (id v : String) (w : Registry) where
  abbrev pub promoting : Registry
  promoting = restated is_candidate stable id v w

  abbrev pub recipe_row : RecipeVersionRow → RecipeRow
  recipe_row r = record (recipe_of r.json) { id = id; active_v = some v }

  -- How a promotion ends.
  pub data Promotes : Result Bool → Registry → Type 0 where
    refused : ready w id v ≡ false → Promotes (ok false) w
    broken : (e : Error) → ready w id v ≡ true → Promotes (err e) w
    promoted :
        (r : RecipeVersionRow) (recipes : List RecipeRow)
        → ready w id v ≡ true
        → find_version promoting id v ≡ some r
        → upsert_recipe (recipe_row r) promoting ≡ (ok tt, record promoting { recipes = recipes })
        → Promotes (ok true) (record promoting { recipes = recipes })

  abbrev Settled : Result Bool × Registry → Type 0
  Settled x = Promotes (settle (λ done. done) w x.0 x.1).0 (settle (λ done. done) w x.0 x.1).1

  written :
      ready w id v ≡ true
      → (r : RecipeVersionRow) → find_version promoting id v ≡ some r
      → Settled (write_recipe id v (some r) promoting)
  unfolding ◌>>◌ ◌>>=◌ pure
  written met r f =
      go (upsert_recipe (recipe_row r) promoting) refl
        (upsert_recipe-Upserts (recipe_row r) promoting)
    where
      go :
          (x : Result (Unit {0}) × Registry)
          → upsert_recipe (recipe_row r) promoting ≡ x
          → Upserts promoting x
          → Settled (continue x.0 (λ _. pure true) x.1)
      go x q (refused_by_table e) = broken e met
      go x q (upserted recipes) = promoted r recipes met f q

  covering :
      (count (hits is_candidate id v) w.versions == 1) ≡ true
      → (c : Option (ℕ × ℕ)) → coverage id v promoting ≡ c
      → Settled (promote_covered id v c promoting)
  unfolding ◌>>=◌ pure asks
  covering one none e = refused (rw (one, e) refl)
  covering one (some (evals, fixtures)) e = go (ltb evals 1 || ltb fixtures 1) refl
    where
      found :
          ready w id v ≡ true
          → (o : Option RecipeVersionRow) → find_version promoting id v ≡ o
          → Settled (write_recipe id v o promoting)
      found met none f = ground (arith, e, f)
      found met (some r) f = written met r f

      go :
          (few : Bool)
          → (ltb evals 1 || ltb fixtures 1) ≡ few
          → Settled (
              (if few then pure false else (asks (λ u. find_version u id v) >>= write_recipe id v))
                promoting)
      go true f = refused (rw (one, e, f) refl)
      go false f = found (rw (one, e, f) refl) (find_version promoting id v) refl

  pub promote_stable-Promotes : Promotes (promote_stable id v w).0 (promote_stable id v w).1
  unfolding promote_stable promote_in_transaction transaction update_status ◌>>=◌ asks pure
  promote_stable-Promotes = go (count (hits is_candidate id v) w.versions == 1) refl
    where
      go :
          (one : Bool)
          → (count (hits is_candidate id v) w.versions == 1) ≡ one
          → Settled (
              (if not one then pure false else (asks (coverage id v) >>= promote_covered id v))
                promoting)
      go true e = covering e (coverage id v promoting) refl
      go false e = refused (rw e refl)

  ready_bounds :
      (r : RecipeVersionRow)
      → find_version promoting id v ≡ some r
      → ready w id v ≡ true
      → (1 ≤ length r.json.eval) × (1 ≤ count (is_fixture_of id v) w.fixtures)
  ready_bounds r f met = ground (arith, f, met)

  promoted-Covered :
      (x r : RecipeVersionRow)
      → ready w id v ≡ true
      → hits is_candidate id v x ≡ true
      → find_version promoting x.id x.v ≡ some r
      → set_status stable x ≡ r
      → Covered w r
  promoted-Covered x r met hit f e =
      let same_id : x.id ≡ id = ground (arith, hit, eq_iff x.id id) in
      let same_v : x.v ≡ v = ground (arith, hit, eq_iff x.v v) in
      let bounds = ready_bounds r ((rw ((sym same_id), (sym same_v)) refl) ∙ f) met in
      ground (arith, bounds, e, same_id, same_v)

promoted-Grows :
    (id v : String) (w : Registry) (recipes : List RecipeRow)
    → ready w id v ≡ true
    → Grows w (record (promoting id v w) { recipes = recipes })
unfolding find_version
promoted-Grows id v w recipes met = record {
  distinct = restated-Distinct is_candidate stable id v w;
  frozen = restated-frozen is_candidate stable id v w refl;
  fixtures = λ i n. omega arith;
  covered = λ i n r h s.
      split i n r (find_version w i n) refl (sym (find-restated is_candidate stable id v w i n) ∙ h)
        h;
}
  where
    split :
        (i n : String) (r : RecipeVersionRow) (before : Option RecipeVersionRow)
        → find_version w i n ≡ before
        → Option.map
            (λ (x : RecipeVersionRow). if hits is_candidate id v x then set_status stable x else x)
            before
          ≡ some r
        → find_version (promoting id v w) i n ≡ some r
        → Covered w r ⊎ (find_version w i n ≡ some r)
    split i n r none e h f = cc
    split i n r (some x) e h f =
        let key : is_version i n x ≡ true = find-holds (is_version i n) w.versions x e in
        let same_id : x.id ≡ i = ground (arith, key, eq_iff x.id i) in
        let same_v : x.v ≡ n = ground (arith, key, eq_iff x.v n) in
        elim (Bool-cases (hits is_candidate id v x)) [
          | inl hit ↦ inl (
              promoted-Covered id v w x r met hit ((rw (same_id, same_v) refl) ∙ f)
                (ground (arith, hit, h)))
          | inr missed ↦ inr (ground (arith, missed, h, e))
        ]

pub promote_stable-Growing : (id v : String) → Growing (promote_stable id v)
promote_stable-Growing id v = record { grows = λ w. go w (promote_stable-Promotes id v w) }
  where
    go : (w : Registry) {b : Result Bool} {w' : Registry} → Promotes id v w b w' → Grows w w'
    go w (refused _) = Grows-refl w
    go w (broken e _) = Grows-refl w
    go w (promoted r recipes met f q) = promoted-Grows id v w recipes met
