-- ===== src/Recipes/Active.antt =====
-- The version that a promotion makes the active one: promoteStable and findStable of
-- src/db/recipeRepo.ts.
use sisu_kodo.Prelude.{
  ◌≤◌, String, Bool, true, false, ◌&&◌, some, List, [], ◌∷◌, ◌++◌, ◌≡◌, inl, inr, refl, ◌∙◌, arith,
  find, any, count, update_where, Bool-cases, ◌===◌, eq_iff,
}
use sisu_kodo.Failure.{Result, ok}
use sisu_kodo.Recipes.Tables.{
  stable, RecipeVersionRow, RecipeRow, Registry, is_candidate, is_stable, set_status, active_in,
  find_stable,
}
use sisu_kodo.Recipes.{refresh, upsert_recipe, promote_stable}
use sisu_kodo.Recipes.Growth.{IsStable, find-holds}
use sisu_kodo.Recipes.Restated.{hits}
use sisu_kodo.Recipes.Promotion.{
  ready, promoting, recipe_row, Promotes, refused, broken, promoted, promote_stable-Promotes,
}

module _ {A : Type 0} (p q : A → Bool) (f : A → A)
    (hit : (x : A) → p x ≡ true → q (f x) ≡ true) where
  find-updated : (xs : List A) → 1 ≤ count p xs → (x : A) × (find q (update_where p f xs) ≡ some x)
  find-updated [] h = absurd (omega arith)
  find-updated (x ∷ xs) h = elim (Bool-cases (p x)) [
    | inl this ↦ (f x, rw (this, hit x this) refl)
    | inr other ↦
        let later = find-updated xs (ground (arith, h, other)) in
        elim (Bool-cases (q x)) [
          | inl first ↦ (x, rw (other, first) refl)
          | inr passed ↦ (later.0, rw (other, passed) later.1)
        ]
  ]

module _ (row : RecipeRow) (v : String) (active : row.active_v ≡ some v) (r : RecipeVersionRow)
    (own : r.id ≡ row.id) where
  abbrev same_id : RecipeRow → Bool
  same_id x = x.id === row.id

  active-refreshed :
      (rows : List RecipeRow)
      → active_in (update_where same_id (refresh row) rows) r ≡ any same_id rows && (v === r.v)
  active-refreshed [] = refl
  active-refreshed (x ∷ rows) = ground (
    arith,
    active,
    own,
    eq_iff x.id row.id,
    eq_iff x.id r.id,
    eq_iff row.id r.id,
    active-refreshed rows,
  )

  active-appended :
      (rows : List RecipeRow)
      → any same_id rows ≡ false
      → active_in (rows ++ row ∷ []) r ≡ (v === r.v)
  active-appended [] h = ground (arith, active, own, eq_iff row.id r.id)
  active-appended (x ∷ rows) h =
      ground (arith, active, own, eq_iff x.id row.id, eq_iff x.id r.id, active-appended rows)

  active-upserted :
      (w w' : Registry) → upsert_recipe row w ≡ (ok tt, w') → active_in w'.recipes r ≡ (v === r.v)
  unfolding upsert_recipe
  active-upserted w w' h = ground (arith, h, active-refreshed w.recipes, active-appended w.recipes)

module _ (id v : String) (w : Registry) where
  active_now :
      (w' : Registry) (r x : RecipeVersionRow)
      → upsert_recipe (recipe_row id v w r) (promoting id v w) ≡ (ok tt, w')
      → x.id ≡ id
      → active_in w'.recipes x ≡ (v === x.v)
  active_now w' r x h own =
      active-upserted (recipe_row id v w r) v refl x own (promoting id v w) w' h

  picked :
      (w' : Registry) (r : RecipeVersionRow)
      → ready w id v ≡ true
      → upsert_recipe (recipe_row id v w r) (promoting id v w) ≡ (ok tt, w')
      → w'.versions ≡ (promoting id v w).versions
      → (x : RecipeVersionRow) × (find_stable w' id ≡ some x)
  unfolding find_stable
  picked w' r met h same =
      let found =
        find-updated (hits is_candidate id v) chosen (set_status stable) chooses w.versions
          (ground (arith, met)) in
      (found.0, (rw same refl) ∙ found.1)
    where
      chosen : RecipeVersionRow → Bool
      chosen x = (x.id === id && is_stable x.status) && active_in w'.recipes x

      chooses :
          (x : RecipeVersionRow)
          → hits is_candidate id v x ≡ true
          → chosen (set_status stable x) ≡ true
      chooses x hit =
          let own : x.id ≡ id = ground (arith, hit, eq_iff x.id id) in
          let current = active_now w' r (set_status stable x) h own in
          ground (arith, hit, current, eq_iff x.v v, eq_iff v x.v)

  picked_right :
      (w' : Registry) (r x : RecipeVersionRow)
      → upsert_recipe (recipe_row id v w r) (promoting id v w) ≡ (ok tt, w')
      → find_stable w' id ≡ some x
      → (x.id ≡ id) × (x.v ≡ v) × IsStable x
  unfolding find_stable
  picked_right w' r x h f =
      let chosen = find-holds _ w'.versions x f in
      let own : x.id ≡ id = ground (arith, chosen, eq_iff x.id id) in
      let current = active_now w' r x h own in
      (own, ground (arith, chosen, current, eq_iff v x.v), ground (arith, chosen))

  picks :
      {b : Result Bool} {w' : Registry}
      → Promotes id v w b w'
      → b ≡ ok true
      → (x : RecipeVersionRow) × (find_stable w' id ≡ some x) × (x.id ≡ id) × (x.v ≡ v) × IsStable x
  picks (refused _) e = cc
  picks (broken _ _) e = cc
  picks (promoted r recipes met f q) e =
      let found = picked _ r met q refl in
      let right = picked_right _ r found.0 q found.1 in
      (found.0, found.1, right.0, right.1, right.2)

-- After a promotion that succeeds, `findStable` answers with the version that was promoted, now stable,
-- also where another version was the stable one before.
pub find_stable-promote_stable :
    (id v : String) (w : Registry)
    → (promote_stable id v w).0 ≡ ok true
    → (x : RecipeVersionRow) × (find_stable (promote_stable id v w).1 id ≡ some x)
      × (x.id ≡ id)
      × (x.v ≡ v)
      × IsStable x
find_stable-promote_stable id v w h = picks id v w (promote_stable-Promotes id v w) h
