-- ===== src/Prelude/Sorting.antt =====
-- `[...xs].sort(compare)`: a stable sort, as insertion into the sorted rest.
use mathlib.Core.Bool.{Bool, true, false}
use mathlib.Core.List.{List, [], ◌∷◌, map}
use mathlib.Core.Path.{◌≡◌, refl, ap, ◌∙◌}
use native.Mathlib.Omega.{arith}
use sisu_kodo.Prelude.Tests.{if◌then◌else◌}
use sisu_kodo.Prelude.Lists.{All}

-- `le a b` stands for `compare(a, b) <= 0`.
module _ {ℓ} {A : Type ℓ} (le : A → A → Bool) where
  abbrev pub insert_sorted : A → List A → List A
  insert_sorted x [] = x ∷ []
  insert_sorted x (y ∷ ys) =
      let rest = insert_sorted x ys in if le x y then x ∷ y ∷ ys else y ∷ rest

  abbrev pub sort_by : List A → List A
  sort_by [] = []
  sort_by (x ∷ xs) = insert_sorted x (sort_by xs)

  pub insert_sorted_comm :
      ((a b c : A) → le a b ≡ true → le b c ≡ true → le a c ≡ true)
      → (x y : A) → le x y ≡ true
      → le y x ≡ false
      → (zs : List A) → insert_sorted x (insert_sorted y zs) ≡ insert_sorted y (insert_sorted x zs)
  insert_sorted_comm trans x y xy yx [] = ground arith
  insert_sorted_comm trans x y xy yx (z ∷ zs) =
      ground (arith, trans x y z, insert_sorted_comm trans x y xy yx zs)

module _ {ℓ κ} {A : Type ℓ} (le : A → A → Bool) (P : A → Type κ) where
  All-insert_sorted : (x : A) (ys : List A) → P x → All P ys → All P (insert_sorted le x ys)
  All-insert_sorted x [] p a = (p, tt)
  All-insert_sorted x (y ∷ ys) p (q, a) =
      elim (le x y) as (λ b. All P (if b then x ∷ y ∷ ys else y ∷ insert_sorted le x ys)) [
        | true ↦ (p, (q, a))
        | false ↦ (q, All-insert_sorted x ys p a)
      ]

  pub All-sort_by : (xs : List A) → All P xs → All P (sort_by le xs)
  All-sort_by [] a = tt
  All-sort_by (x ∷ xs) (p, a) = All-insert_sorted x (sort_by le xs) p (All-sort_by xs a)

-- Sorting by a key, and the keys.
module _ {ℓ κ} {A : Type ℓ} {B : Type κ} (le : B → B → Bool) (key : A → B) where
  map-insert_sorted :
      (x : A) (ys : List A)
      → map key (insert_sorted (λ a b. le (key a) (key b)) x ys)
        ≡ insert_sorted le (key x) (map key ys)
  map-insert_sorted x [] = refl
  map-insert_sorted x (y ∷ ys) = ground (arith, map-insert_sorted x ys)

  pub map-sort_by :
      (xs : List A) → map key (sort_by (λ a b. le (key a) (key b)) xs) ≡ sort_by le (map key xs)
  map-sort_by [] = refl
  map-sort_by (x ∷ xs) =
      map-insert_sorted x (sort_by (λ a b. le (key a) (key b)) xs)
      ∙ ap (insert_sorted le (key x)) (map-sort_by xs)
