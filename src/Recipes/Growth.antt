-- ===== src/Recipes/Growth.antt =====
-- How the registry of recipes may change: src/db/recipeRepo.ts.
use sisu_kodo.Prelude.{
  ◌≤◌, String, Bool, true, false, none, some, List, [], ◌∷◌, ◌++◌, ◌≡◌, ◌⊎◌, inl, inr, refl, arith,
  find, any, count, update_where, length, Bool-cases, if◌then◌else◌,
}
use mathlib.Core.Option
use sisu_kodo.Failure.{Error, Result, ok, err}
use sisu_kodo.Failure.Async.{Async, pure, throw, continue, ◌>>=◌, ◌>>◌}
use sisu_kodo.Recipes.Tables.{
  RecipeVersionRow, Registry, is_stable, is_version, is_fixture_of, find_version,
}
use sisu_kodo.Recipes.{asks, settle, transaction}

module _ {ℓ} {A : Type ℓ} where
  pub find-change_where :
      (p q : A → Bool) (f : A → A)
      → ((x : A) → p (f x) ≡ p x)
      → (xs : List A)
      → find p (update_where q f xs) ≡ Option.map (λ x. if q x then f x else x) (find p xs)
  find-change_where p q f same [] = refl
  find-change_where p q f same (x ∷ xs) = ground (arith, same x, find-change_where p q f same xs)

  pub find-concat :
      (p : A → Bool) (xs : List A) (y : A)
      → find p (xs ++ y ∷ [])
        ≡ (elim (find p xs) [ none ↦ if p y then some y else none | some x ↦ some x ])
  find-concat p [] y = refl
  find-concat p (x ∷ xs) y = ground (arith, find-concat p xs y)

  pub count-concat-le : (p : A → Bool) (xs : List A) (y : A) → count p xs ≤ count p (xs ++ y ∷ [])
  count-concat-le p [] y = ground arith
  count-concat-le p (x ∷ xs) y = ground (arith, count-concat-le p xs y)

  pub find-holds : (p : A → Bool) (xs : List A) (x : A) → find p xs ≡ some x → p x ≡ true
  find-holds p [] x h = cc
  find-holds p (y ∷ xs) x h = ground (arith, find-holds p xs x)

  -- A new element that fits a predicate which none fitted.
  pub count-concat_fresh :
      (p : A → Bool) (xs : List A) (y : A) → any p xs ≡ false → count p (xs ++ y ∷ []) ≤ 1
  count-concat_fresh p [] y h = ground arith
  count-concat_fresh p (x ∷ xs) y h = ground (arith, count-concat_fresh p xs y)

  pub count-concat_other :
      (p : A → Bool) (xs : List A) (y : A) → p y ≡ false → count p (xs ++ y ∷ []) ≡ count p xs
  count-concat_other p [] y h = ground arith
  count-concat_other p (x ∷ xs) y h = ground (arith, count-concat_other p xs y)

  pub count-change_where :
      (p q : A → Bool) (f : A → A)
      → ((x : A) → p (f x) ≡ p x)
      → (xs : List A) → count p (update_where q f xs) ≡ count p xs
  count-change_where p q f same [] = refl
  count-change_where p q f same (x ∷ xs) = ground (arith, same x, count-change_where p q f same xs)

-- A version has evaluations and fixtures.
abbrev pub Covered : Registry → RecipeVersionRow → Type 0
Covered w r = (1 ≤ length r.json.eval) × (1 ≤ count (is_fixture_of r.id r.v) w.fixtures)

abbrev pub IsStable : RecipeVersionRow → Type 0
IsStable r = is_stable r.status ≡ true

-- The primary key of the versions.
abbrev pub Distinct : Registry → Type 0
Distinct w = (id v : String) → count (is_version id v) w.versions ≤ 1

-- What a change of the registry keeps: the key, stable versions, fixtures, and that what is stable is covered.
pub record Grows (w w' : Registry) : Type 0 where
  pub distinct : Distinct w → Distinct w'
  pub frozen :
      (id v : String) (r : RecipeVersionRow)
      → find_version w id v ≡ some r
      → IsStable r
      → find_version w' id v ≡ some r
  pub fixtures :
      (id v : String)
      → count (is_fixture_of id v) w.fixtures ≤ count (is_fixture_of id v) w'.fixtures
  pub covered :
      (id v : String) (r : RecipeVersionRow)
      → find_version w' id v ≡ some r
      → IsStable r
      → Covered w' r ⊎ (find_version w id v ≡ some r)

pub Grows-refl : (w : Registry) → Grows w w
Grows-refl w = record {
  distinct = λ d. d;
  frozen = λ id v r h s. h;
  fixtures = λ id v. omega arith;
  covered = λ id v r h s. inr h;
}

pub Grows-trans : {u v w : Registry} → Grows u v → Grows v w → Grows u w
Grows-trans {u} {v} {w} g h = record {
  distinct = λ d. h.distinct (g.distinct d);
  frozen = λ id n r f s. h.frozen id n r (g.frozen id n r f s) s;
  fixtures = λ id n. omega (arith, g.fixtures id n, h.fixtures id n);
  covered = λ id n r f s. elim (h.covered id n r f s) [
    | inl c ↦ inl c
    | inr before ↦ elim (g.covered id n r before s) [
      | inl c ↦ inl (c.0, omega (arith, h.fixtures r.id r.v, c.1))
      | inr first ↦ inr first
    ]
  ];
}

pub Grows-if :
    {A : Type 0} {w : Registry} (b : Bool) (x y : A × Registry)
    → Grows w x.1
    → Grows w y.1
    → Grows w (if b then x else y).1
Grows-if true x y g h = g
Grows-if false x y g h = h

-- Code that lets the registry grow, whatever it returns or throws.
pub record Growing {A : Type 0} (m : Async Registry A) : Type 0 where
  pub grows : (w : Registry) → Grows w (m w).1

module _ {A : Type 0} where
  pub Growing-pure : (x : A) → Growing (pure x)
  unfolding pure
  Growing-pure x = record { grows = Grows-refl }

  pub Growing-asks : (f : Registry → A) → Growing (asks f)
  unfolding asks
  Growing-asks f = record { grows = Grows-refl }

  pub Growing-throw : (e : Error) → Growing (throw {A = A} e)
  unfolding throw
  Growing-throw e = record { grows = Grows-refl }

  pub Growing-transaction :
      (commits : A → Bool) (m : Async Registry A) → Growing m → Growing (transaction commits m)
  unfolding transaction
  Growing-transaction commits m g = record { grows = λ w. go w (m w).0 }
    where
      go : (w : Registry) (r : Result A) → Grows w (settle commits w r (m w).1).1
      go w (err e) = Grows-refl w
      go w (ok x) = elim (Bool-cases (commits x)) [
        | inl kept ↦ rw kept (g.grows w)
        | inr dropped ↦ rw dropped (Grows-refl w)
      ]

module _ {A B : Type 0} where
  pub Growing-bind :
      (m : Async Registry A) (f : A → Async Registry B)
      → Growing m
      → ((x : A) → Growing (f x))
      → Growing (m >>= f)
  unfolding ◌>>=◌
  Growing-bind m f gm gf = record { grows = λ w. go w (m w).0 }
    where
      go : (w : Registry) (r : Result A) → Grows w (continue r f (m w).1).1
      go w (ok x) = Grows-trans (gm.grows w) ((gf x).grows (m w).1)
      go w (err e) = gm.grows w

  pub Growing-then :
      (m : Async Registry A) (k : Async Registry B) → Growing m → Growing k → Growing (m >> k)
  unfolding ◌>>◌
  Growing-then m k gm gk = Growing-bind m (λ _. k) gm (λ _. gk)

pub ruleset growth =
    (Grows-refl, Growing-pure, Growing-asks, Growing-throw, Growing-bind, Growing-then)
