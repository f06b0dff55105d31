-- ===== src/Recipes/Lifecycle.antt =====
-- The life of recipe versions under any sequence of operations: src/db/recipeRepo.ts.
use sisu_kodo.Prelude.{
  ℕ, ◌≤◌, String, Bool, false, ◌&&◌, Option, none, some, List, [], ◌∷◌, ◌≡◌, ◌↔◌, ◌⊎◌, inl, inr,
  refl, sym, ◌∙◌, arith, find, filter, count, length, if◌then◌else◌,
}
use sisu_kodo.Failure.{Result, ok}
use sisu_kodo.Hash.{Platform}
use sisu_kodo.Recipes.Tables.{
  RecipeSpec, stable, RecipeVersionRow, Registry, is_candidate, is_version, is_fixture_of,
  find_version,
}
use sisu_kodo.Recipes.{set_candidate, can_promote_stable, promote_stable, import_bundle}
use sisu_kodo.Recipes.Growth.{Grows, Grows-refl, Grows-trans, IsStable, Covered, Distinct}
use sisu_kodo.Recipes.Imports.{import_bundle-Growing}
use sisu_kodo.Recipes.Restated.{hits, find-restated, set_candidate-Growing}
use sisu_kodo.Recipes.Promotion.{
  ready, Promotes, refused, broken, promoted, promote_stable-Growing, promote_stable-Promotes,
}

-- What the server and the seeding script do to the registry.
pub data RecipeOp : Type 0 where
  importing : ℕ → List RecipeSpec → RecipeOp
  nominating promoting_stable : (id v : String) → RecipeOp

abbrev pub empty : Registry
empty = record { versions = []; fixtures = []; recipes = [] }

module _ (p : Platform) where
  -- The registry that an operation leaves, whether it returns or throws.
  unfoldable pub perform : RecipeOp → Registry → Registry
  perform (importing now bundle) w = (import_bundle p now bundle w).1
  perform (nominating id v) w = (set_candidate id v w).1
  perform (promoting_stable id v) w = (promote_stable id v w).1

  unfoldable pub perform_all : List RecipeOp → Registry → Registry
  perform_all [] w = w
  perform_all (op ∷ ops) w = perform_all ops (perform op w)

  perform-Grows : (op : RecipeOp) (w : Registry) → Grows w (perform op w)
  unfolding perform
  perform-Grows (importing now bundle) w = (import_bundle-Growing p now bundle).grows w
  perform-Grows (nominating id v) w = (set_candidate-Growing id v).grows w
  perform-Grows (promoting_stable id v) w = (promote_stable-Growing id v).grows w

  pub perform_all-Grows : (ops : List RecipeOp) (w : Registry) → Grows w (perform_all ops w)
  unfolding perform_all
  perform_all-Grows [] w = Grows-refl w
  perform_all-Grows (op ∷ ops) w =
      Grows-trans (perform-Grows op w) (perform_all-Grows ops (perform op w))

  -- A stable version never changes again, whatever is imported, nominated and promoted later, and every
  -- stable version of a registry that grew from an empty one has an evaluation and a fixture.
  pub perform_all-stable :
      (before after : List RecipeOp) (id v : String) (r : RecipeVersionRow)
      → let w = perform_all before empty in
        find_version w id v ≡ some r
        → IsStable r
        → (find_version (perform_all after w) id v ≡ some r) × Covered w r
  perform_all-stable before after id v r f s = (
    (perform_all-Grows after (perform_all before empty)).frozen id v r f s,
    from_empty ((perform_all-Grows before empty).covered id v r f s),
  )
    where
      from_empty :
          Covered (perform_all before empty) r ⊎ (find_version empty id v ≡ some r)
          → Covered (perform_all before empty) r
      from_empty (inl c) = c
      from_empty (inr e) = absurd (unfold find_version in (cc e))

  pub perform_all-Distinct : (ops : List RecipeOp) → Distinct (perform_all ops empty)
  perform_all-Distinct ops = (perform_all-Grows ops empty).distinct (λ id v. omega arith)

module _ {A : Type 0} (p q : A → Bool) where
  count-find-none : (xs : List A) → find p xs ≡ none → count (λ x. p x && q x) xs ≡ 0
  count-find-none [] h = refl
  count-find-none (x ∷ xs) h = ground (arith, count-find-none xs)

  count-none : (xs : List A) → count p xs ≡ 0 → count (λ x. p x && q x) xs ≡ 0
  count-none [] h = refl
  count-none (x ∷ xs) h = ground (arith, count-none xs)

  count-find_one :
      (xs : List A) (x : A)
      → count p xs ≤ 1
      → find p xs ≡ some x
      → count (λ y. p y && q y) xs ≡ (if q x then 1 else 0)
  count-find_one [] x h f = cc
  count-find_one (y ∷ xs) x h f = ground (arith, count-find_one xs x, count-none xs)

length-filter : {A : Type 0} (p : A → Bool) (xs : List A) → length (filter p xs) ≡ count p xs
length-filter p [] = refl
length-filter p (x ∷ xs) = ground (arith, length-filter p xs)

ready-can_promote :
    (w : Registry) (id v : String) → Distinct w → ready w id v ≡ can_promote_stable w id v
unfolding can_promote_stable
ready-can_promote w id v d = go (find_version w id v) refl
  where
    candidates : RecipeVersionRow → Bool
    candidates r = is_candidate r.status

    absent : find_version w id v ≡ none → count (hits is_candidate id v) w.versions ≡ 0
    absent f = unfold find_version in (count-find-none (is_version id v) candidates w.versions f)

    present :
        (r : RecipeVersionRow)
        → find_version w id v ≡ some r
        → count (hits is_candidate id v) w.versions ≡ (if is_candidate r.status then 1 else 0)
    present r f =
        unfold find_version in (count-find_one (is_version id v) candidates w.versions r (d id v) f)

    go :
        (o : Option RecipeVersionRow)
        → find_version w id v ≡ o
        → ready w id v ≡ can_promote_stable w id v
    go none f = ground (arith, f, absent f)
    go (some r) f = ground (
      arith,
      f,
      present r f,
      find-restated is_candidate stable id v w id v,
      length-filter (is_fixture_of id v) w.fixtures,
    )

module _ (id v : String) (w : Registry) where
  refuses :
      {b : Result Bool} {w' : Registry}
      → Promotes id v w b w'
      → (b ≡ ok false) ↔ (ready w id v ≡ false)
  refuses (refused unready) = (λ e. unready, λ e. refl)
  refuses (broken e met) = (λ h. cc, λ h. cc)
  refuses (promoted r recipes met f q) = (λ h. cc, λ h. cc)

-- In a registry that grew from an empty one, `promoteStable` refuses a version exactly when
-- `canPromoteStable` answers no.
pub promote_stable_iff :
    (p : Platform) (ops : List RecipeOp) (id v : String)
    → ((promote_stable id v (perform_all p ops empty)).0 ≡ ok false)
      ↔ (can_promote_stable (perform_all p ops empty) id v ≡ false)
promote_stable_iff p ops id v =
    let w = perform_all p ops empty in
    let same = ready-can_promote w id v (perform_all-Distinct p ops) in
    let both = refuses id v w (promote_stable-Promotes id v w) in
    (λ h. sym same ∙ both.0 h, λ h. both.1 (same ∙ h))
