-- ===== src/Recipes/Restated.antt =====
-- Changing the status of a version: setCandidate of src/db/recipeRepo.ts, and the first statement of
-- promoteStable.
use sisu_kodo.Prelude.{
  String, Bool, true, false, ◌&&◌, Option, none, some, ◌≡◌, inl, inr, refl, sym, ◌∙◌, arith,
  update_where, Bool-cases, if◌then◌else◌,
}
use mathlib.Core.Option
use sisu_kodo.Recipes.Tables.{
  RecipeStatus, draft, candidate, stable, RecipeVersionRow, Registry, is_draft, is_stable,
  is_version, set_status, find_version,
}
use sisu_kodo.Recipes.{update_status, set_candidate}
use sisu_kodo.Recipes.Growth.{
  Growing, Growing-bind, Growing-pure, find-change_where, count-change_where, Distinct, IsStable,
}

-- The versions of the registry after an update of the status.
abbrev pub hits : (RecipeStatus → Bool) → String → String → RecipeVersionRow → Bool
hits from id v r = is_version id v r && from r.status

abbrev pub restated : (RecipeStatus → Bool) → RecipeStatus → String → String → Registry → Registry
restated from to id v w = record w {
  versions = update_where (hits from id v) (set_status to) w.versions;
}

module _ (from : RecipeStatus → Bool) (to : RecipeStatus) (id v : String) (w : Registry) where
  pub find-restated :
      (i n : String)
      → find_version (restated from to id v w) i n
        ≡ Option.map
            (λ (r : RecipeVersionRow). if hits from id v r then set_status to r else r)
            (find_version w i n)
  unfolding find_version
  find-restated i n =
      find-change_where (is_version i n) (hits from id v) (set_status to) (λ r. refl) w.versions

  pub restated-Distinct : Distinct w → Distinct (restated from to id v w)
  restated-Distinct d i n = omega (
    arith,
    d i n,
    count-change_where (is_version i n) (hits from id v) (set_status to) (λ r. refl) w.versions,
  )

  pub restated-frozen :
      from stable ≡ false
      → (i n : String) (r : RecipeVersionRow) → find_version w i n ≡ some r
      → IsStable r
      → find_version (restated from to id v w) i n ≡ some r
  restated-frozen f i n r h s = find-restated i n ∙ rw h (kept r.status refl s)
    where
      kept :
          (status : RecipeStatus)
          → r.status ≡ status
          → is_stable status ≡ true
          → ◌≡◌ {A = Option RecipeVersionRow}
              (some (if hits from id v r then set_status to r else r))
              (some r)
      kept draft e t = cc
      kept candidate e t = cc
      kept stable e t = ground (arith, f)

pub set_candidate-Growing : (id v : String) → Growing (set_candidate id v)
unfolding set_candidate update_status
set_candidate-Growing id v = Growing-bind _ _ updated λ n. Growing-pure _
  where
    unchanged :
        (w : Registry) (i n : String) (r : RecipeVersionRow) (before : Option RecipeVersionRow)
        → find_version w i n ≡ before
        → Option.map
            (λ (x : RecipeVersionRow). if hits is_draft id v x then set_status candidate x else x)
            before
          ≡ some r
        → IsStable r
        → find_version w i n ≡ some r
    unchanged w i n r none e h s = cc
    unchanged w i n r (some x) e h s = elim (Bool-cases (hits is_draft id v x)) [
      | inl hit ↦ ground (arith, hit, h, s)
      | inr missed ↦ ground (arith, missed, h, e)
    ]

    updated : Growing (update_status is_draft candidate id v)
    updated = record {
      grows = λ w. record {
        distinct = restated-Distinct is_draft candidate id v w;
        frozen = restated-frozen is_draft candidate id v w refl;
        fixtures = λ i n. omega arith;
        covered = λ i n r h s. inr (
            unchanged w i n r (find_version w i n) refl
              (sym (find-restated is_draft candidate id v w i n) ∙ h) s);
      };
    }
