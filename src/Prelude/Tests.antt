-- ===== src/Prelude/Tests.antt =====
-- Boolean tests on numbers, texts and options, the conditional, and case splits that keep the
-- equation.
use Prim.Native.Nat.{ℕ, compare, Ordering}
use Prim.Native.String.{String}
use mathlib.Core.Path.{◌≡◌, refl}
use mathlib.Core.Logic.{◌↔◌, ◌⊎◌, inl, inr}
use mathlib.Core.Bool.{Bool, true, false}
use mathlib.Core.Option.{Option, none, some}
use native.Mathlib.Omega.{arith}
use text.Mathlib.Text.{◌==◌ as text_eq}
use text.Mathlib.TextEquality.{eq_iff}

abbrev pub ltb : ℕ → ℕ → Bool
ltb a b = elim (compare a b) [ Ordering.lt ↦ true | _ ↦ false ]

abbrev pub leb : ℕ → ℕ → Bool
leb a b = elim (compare a b) [ Ordering.gt ↦ false | _ ↦ true ]

infix 50 ◌==◌ ◌===◌
abbrev pub ◌==◌ : ℕ → ℕ → Bool
a == b = elim (compare a b) [ Ordering.eq ↦ true | _ ↦ false ]

-- `===` on strings.
abbrev pub ◌===◌ : String → String → Bool
s === t = text_eq s t

infix 1 if◌then◌else◌
abbrev pub if◌then◌else◌ {ℓ} : {A : Type ℓ} → Bool → A → A → A
if true then x else y = x
if false then x else y = y

pub Bool-cases : (b : Bool) → (b ≡ true) ⊎ (b ≡ false)
Bool-cases true = inl refl
Bool-cases false = inr refl

pub Option-cases {ℓ} : {A : Type ℓ} (o : Option A) → (o ≡ none) ⊎ ((a : A) × (o ≡ some a))
Option-cases none = inl refl
Option-cases (some a) = inr (a, refl)

-- `a ?? b` where `b` is a value.
infixr 20 ◌or_default◌ ◌or_else◌
abbrev pub ◌or_default◌ {ℓ} : {A : Type ℓ} → Option A → A → A
none or_default b = b
some a or_default b = a

-- `a ?? b` where `b` may be missing too.
abbrev pub ◌or_else◌ {ℓ} : {A : Type ℓ} → Option A → Option A → Option A
none or_else b = b
some a or_else b = some a

abbrev pub is_some {ℓ} : {A : Type ℓ} → Option A → Bool
is_some none = false
is_some (some _) = true

-- `===` on optional texts, `null` and `undefined` being one value.
abbrev pub opt_eq : Option String → Option String → Bool
opt_eq none none = true
opt_eq none (some _) = false
opt_eq (some _) none = false
opt_eq (some s) (some t) = text_eq s t

pub opt_eq_iff : (a b : Option String) → (opt_eq a b ≡ true) ↔ (a ≡ b)
opt_eq_iff none none = (λ _. refl, λ _. refl)
opt_eq_iff none (some t) = (λ h. cc, λ h. cc)
opt_eq_iff (some s) none = (λ h. cc, λ h. cc)
opt_eq_iff (some s) (some t) = ground (arith, eq_iff s t)

-- What holds of a value that may be missing.
abbrev pub Given {ℓ κ} : {A : Type ℓ} → Option A → (A → Type κ) → Type κ
Given none P = Unit
Given (some a) P = P a
