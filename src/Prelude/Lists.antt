-- ===== src/Prelude/Lists.antt =====
-- Lists measured by the native numbers, and predicates on them by recursion.
use Prim.Native.Nat.{ℕ, suc, ◌+◌}
use mathlib.Core.Path.{◌≡◌, refl}
use mathlib.Core.Bool.{Bool, true, false, ◌&&◌, ◌||◌}
use mathlib.Core.Option.{Option, none, some}
use mathlib.Core.List.{List, [], ◌∷◌, ◌++◌}
use native.Mathlib.Omega.{arith}
use Prim.Native.String.{String}
use mathlib.Core.Option
use text.Mathlib.TextEquality.{eq_iff}
use sisu_kodo.Prelude.Tests.{if◌then◌else◌, ◌===◌, Bool-cases}
use mathlib.Core.Logic.{inl, inr}

module _ {ℓ} {A : Type ℓ} where
  abbrev pub length : List A → ℕ
  length [] = 0
  length (_ ∷ xs) = suc (length xs)

  -- `xs.some(p)`
  abbrev pub any : (A → Bool) → List A → Bool
  any p [] = false
  any p (x ∷ xs) = p x || any p xs

  abbrev pub all : (A → Bool) → List A → Bool
  all p [] = true
  all p (x ∷ xs) = p x && all p xs

  -- `xs.find(p)`
  abbrev pub find : (A → Bool) → List A → Option A
  find p [] = none
  find p (x ∷ xs) = if p x then some x else find p xs

  -- `xs.filter(p)`
  abbrev pub filter : (A → Bool) → List A → List A
  filter p [] = []
  filter p (x ∷ xs) = let rest = filter p xs in if p x then x ∷ rest else rest

  -- `SELECT COUNT(*) … WHERE p`
  abbrev pub count : (A → Bool) → List A → ℕ
  count p [] = 0
  count p (x ∷ xs) = let n = count p xs in if p x then suc n else n

  -- `UPDATE … SET … WHERE p`
  abbrev pub update_where : (A → Bool) → (A → A) → List A → List A
  update_where p f [] = []
  update_where p f (x ∷ xs) = let rest = update_where p f xs in (if p x then f x else x) ∷ rest

  pub length-append : (xs ys : List A) → length (xs ++ ys) ≡ length xs + length ys
  length-append [] ys = omega arith
  length-append (x ∷ xs) ys = omega (arith, length-append xs ys)

  pub length-update_where :
      (p : A → Bool) (f : A → A) (xs : List A) → length (update_where p f xs) ≡ length xs
  length-update_where p f [] = refl
  length-update_where p f (x ∷ xs) = omega (arith, length-update_where p f xs)

module _ {ℓ κ} {A : Type ℓ} (P : A → Type κ) where
  abbrev pub All : List A → Type κ
  All [] = Unit
  All (x ∷ xs) = P x × All xs

  pub All-append : (xs ys : List A) → All xs → All ys → All (xs ++ ys)
  All-append [] ys h k = k
  All-append (x ∷ xs) ys (p, h) k = (p, All-append xs ys h k)

-- Rows found by a text column that the update leaves alone.
module _ {ℓ} {A : Type ℓ} (key : A → String) (f : A → A)
    (same_key : (r : A) → key (f r) ≡ key r) where
  pub find-update_where :
      (rows : List A) (id k : String)
      → find (λ r. key r === k) (update_where (λ r. key r === id) f rows) ≡ (
          if k === id
          then Option.map f (find (λ r. key r === k) rows)
          else find (λ r. key r === k) rows)
  find-update_where [] id k = ground arith
  find-update_where (r ∷ rows) id k = ground (
    arith,
    find-update_where rows id k,
    same_key r,
    eq_iff k id,
    eq_iff (key r) id,
    eq_iff (key r) k,
  )

module _ {ℓ κ} {A : Type ℓ} (P : A → Type κ) where
  pub All-filter : (p : A → Bool) (xs : List A) → All P xs → All P (filter p xs)
  All-filter p [] a = tt
  All-filter p (x ∷ xs) (h, hs) = elim (Bool-cases (p x)) [
    | inl hits ↦ rw hits (h, All-filter p xs hs)
    | inr misses ↦ rw misses (All-filter p xs hs)
  ]

module _ {ℓ κ} {A : Type ℓ} (P Q : A → Type κ) where
  pub All-map : ((x : A) → P x → Q x) → (xs : List A) → All P xs → All Q xs
  All-map h [] a = tt
  All-map h (x ∷ xs) (p, ps) = (h x p, All-map h xs ps)

  pub All-update_where :
      (p : A → Bool) (f : A → A)
      → ((x : A) → p x ≡ true → P x → Q (f x))
      → ((x : A) → p x ≡ false → P x → Q x)
      → (xs : List A) → All P xs
      → All Q (update_where p f xs)
  All-update_where p f hit miss [] a = tt
  All-update_where p f hit miss (x ∷ xs) (h, hs) = elim (Bool-cases (p x)) [
    | inl hits ↦ rw hits (hit x hits h, All-update_where p f hit miss xs hs)
    | inr misses ↦ rw misses (miss x misses h, All-update_where p f hit miss xs hs)
  ]
