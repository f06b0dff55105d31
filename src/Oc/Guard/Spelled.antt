-- ===== src/Oc/Guard/Spelled.antt =====
-- What the guard denies: src/oc/child-session-guard.ts.
use sisu_kodo.Prelude.{
  ℕ, ◌+◌, ◌≤◌, String, Bool, true, false, ◌&&◌, ◌||◌, Option, none, some, List, [], ◌∷◌, ◌++◌, Text,
  codes, map, ◌==◌, ◌⊎◌, arith, ap, All, filter, leb, same, same_iff, any, find, is_some, ◌or_else◌,
  ◌<>◌, ◌≡◌, ◌↔◌, refl, sym, Bool-cases, inl, inr,
}
use sisu_kodo.Prelude.Json.{
  Json, null, bool, num, str, arr, obj, Items, nil, cons, Fields, end, field,
}
use sisu_kodo.Failure.{workflow, Result, ok, err}
use sisu_kodo.Oc.Guard.{
  is_alphanumeric, lower_letter, normalize_key, is_forbidden, find_forbidden_key, find_in_items,
  find_in_fields, assert_no_child_session, keys, keys_of_items, keys_of_fields,
}

find-append :
    {A : Type 0} (p : A → Bool) (xs ys : List A) → find p (xs ++ ys) ≡ (find p xs or_else find p ys)
find-append p [] ys = refl
find-append p (x ∷ xs) ys = elim (Bool-cases (p x)) [
  | inl hit ↦ rw hit refl
  | inr miss ↦ rw miss (find-append p xs ys)
]

mutual
  unfolding find_forbidden_key keys

  find_forbidden_key-keys : (v : Json) → find_forbidden_key v ≡ find is_forbidden (keys v)
  find_forbidden_key-keys (arr items) = find_in_items-keys items
  find_forbidden_key-keys (obj fields) = find_in_fields-keys fields
  find_forbidden_key-keys null = refl
  find_forbidden_key-keys (bool _) = refl
  find_forbidden_key-keys (num _) = refl
  find_forbidden_key-keys (str _) = refl

  find_in_items-keys : (xs : Items) → find_in_items xs ≡ find is_forbidden (keys_of_items xs)
  find_in_items-keys nil = refl
  find_in_items-keys (cons x xs) =
      rw (find_forbidden_key-keys x, find_in_items-keys xs)
        (sym (find-append is_forbidden (keys x) (keys_of_items xs)))

  find_in_fields-keys : (fs : Fields) → find_in_fields fs ≡ find is_forbidden (keys_of_fields fs)
  find_in_fields-keys end = refl
  find_in_fields-keys (field k v fs) =
      rw
        (
          find_forbidden_key-keys v,
          find_in_fields-keys fs,
          find-append is_forbidden (keys v) (keys_of_fields fs),
        )
        refl

find-any : {A : Type 0} (p : A → Bool) (xs : List A) → is_some (find p xs) ≡ any p xs
find-any p [] = refl
find-any p (x ∷ xs) = elim (Bool-cases (p x)) [
  | inl hit ↦ rw hit refl
  | inr miss ↦ rw miss (find-any p xs)
]

-- A code point that stands for a small letter or a digit.
pub data StandsFor : ℕ → ℕ → Type 0 where
  small : {c : ℕ} → b'a' ≤ c → c ≤ b'z' → StandsFor c c
  digit : {c : ℕ} → b'0' ≤ c → c ≤ b'9' → StandsFor c c
  capital : {c : ℕ} → b'A' ≤ c → c ≤ b'Z' → StandsFor c (c + 32)
  dotted_i : StandsFor 304 b'i'
  kelvin : StandsFor 8490 b'k'

-- A text spells a word of small letters and digits, with anything else in between.
pub data Spells : Text → Text → Type 0 where
  ended : Spells [] []
  letter : {c d : ℕ} {s t : Text} → StandsFor c d → Spells s t → Spells (c ∷ s) (d ∷ t)
  other : {c : ℕ} {s t : Text} → ((d : ℕ) → ¬ StandsFor c d) → Spells s t → Spells (c ∷ s) t

-- A key that names a parent session.
abbrev pub Denied : String → Type 0
Denied key = Spells (codes key) (codes "parentid") ⊎ Spells (codes key) (codes "parentsessionid")

lower_letter_of : {c d : ℕ} → StandsFor c d → (lower_letter c ≡ d) × (is_alphanumeric d ≡ true)
unfolding lower_letter is_alphanumeric
lower_letter_of (small l h) = (ground (arith, l, h), ground (arith, l, h))
lower_letter_of (digit l h) = (ground (arith, l, h), ground (arith, l, h))
lower_letter_of (capital l h) = (ground (arith, l, h), ground (arith, l, h))
lower_letter_of dotted_i = (refl, refl)
lower_letter_of kelvin = (refl, refl)

StandsFor-lower_letter :
    (c : ℕ) → is_alphanumeric (lower_letter c) ≡ true → StandsFor c (lower_letter c)
unfolding lower_letter is_alphanumeric
StandsFor-lower_letter c h = elim (Bool-cases (leb b'A' c && leb c b'Z')) [
  | inl up ↦ rw up (capital (ground (arith, up)) (ground (arith, up)))
  | inr not_up ↦ elim (Bool-cases (c == 304)) [
    | inl dot ↦ let e : c ≡ 304 = ground (arith, dot) in rw e dotted_i
    | inr no_dot ↦ elim (Bool-cases (c == 8490)) [
      | inl sign ↦ let e : c ≡ 8490 = ground (arith, sign) in rw e kelvin
      | inr no_sign ↦
          rw (not_up, no_dot, no_sign)
            (elim (Bool-cases (leb b'a' c && leb c b'z')) [
              | inl low ↦ small (ground (arith, low)) (ground (arith, low))
              | inr no_low ↦
                  digit (ground (arith, h, not_up, no_dot, no_sign, no_low))
                    (ground (arith, h, not_up, no_dot, no_sign, no_low))
            ])
    ]
  ]
]

normalized : Text → Text
normalized s = filter is_alphanumeric (map lower_letter s)

not_spelled : (c : ℕ) → ((d : ℕ) → ¬ StandsFor c d) → is_alphanumeric (lower_letter c) ≡ false
not_spelled c missed = elim (Bool-cases (is_alphanumeric (lower_letter c))) [
  | inl hit ↦ absurd (missed (lower_letter c) (StandsFor-lower_letter c hit))
  | inr h ↦ h
]

Spells-normalized : {s t : Text} → Spells s t → normalized s ≡ t
unfolding normalized
Spells-normalized ended = refl
Spells-normalized (letter {c} {d} {s} {t} h sp) =
    let (low, kept) = lower_letter_of h in rw (low, kept) (ap (◌∷◌ d) (Spells-normalized sp))
Spells-normalized (other {c} missed sp) = rw (not_spelled c missed) (Spells-normalized sp)

Spells_normalized : (s : Text) → Spells s (normalized s)
unfolding normalized
Spells_normalized [] = ended
Spells_normalized (c ∷ s) = elim (Bool-cases (is_alphanumeric (lower_letter c))) [
  | inl hit ↦ rw hit (letter (StandsFor-lower_letter c hit) (Spells_normalized s))
  | inr missed ↦ rw missed (
      other
        (λ d h. let (low, kept) = lower_letter_of h in cc (ap is_alphanumeric low, kept, missed))
        (Spells_normalized s))
]

spelled_iff :
    (key word : String)
    → (same (normalize_key key) (codes word) ≡ true) ↔ Spells (codes key) (codes word)
unfolding normalize_key normalized
spelled_iff key word = (
  λ h. rw ((same_iff (normalized (codes key)) (codes word)).0 h) at (Spells_normalized (codes key)),
  λ sp. (same_iff (normalized (codes key)) (codes word)).1 (Spells-normalized sp),
)

is_forbidden-Denied : (key : String) → (is_forbidden key ≡ true) ↔ Denied key
unfolding is_forbidden
is_forbidden-Denied key = (to, from)
  where
    short : Bool
    short = same (normalize_key key) (codes "parentid")

    to : (short || same (normalize_key key) (codes "parentsessionid")) ≡ true → Denied key
    to h = elim (Bool-cases short) [
      | inl hit ↦ inl ((spelled_iff key "parentid").0 hit)
      | inr missed ↦ inr ((spelled_iff key "parentsessionid").0 (rw missed at h))
    ]

    from : Denied key → (short || same (normalize_key key) (codes "parentsessionid")) ≡ true
    from (inl sp) = rw ((spelled_iff key "parentid").1 sp) refl
    from (inr sp) = rw ((spelled_iff key "parentsessionid").1 sp) (ground arith)

none_forbidden : (ks : List String) → (any is_forbidden ks ≡ false) ↔ All (λ k. ¬ Denied k) ks
none_forbidden [] = (λ h. tt, λ h. refl)
none_forbidden (k ∷ ks) = (
  λ h. (
    λ d. let e = (is_forbidden-Denied k).1 d in ground (arith, h, e),
    (none_forbidden ks).0 (ground (arith, h)),
  ),
  λ (missed, rest). elim (Bool-cases (is_forbidden k)) [
    | inl hit ↦ absurd (missed ((is_forbidden-Denied k).0 hit))
    | inr fine ↦ rw fine ((none_forbidden ks).1 rest)
  ],
)

passes_iff : (v : Json) → (assert_no_child_session v ≡ ok tt) ↔ (any is_forbidden (keys v) ≡ false)
unfolding assert_no_child_session
passes_iff v =
    rw (← find-any is_forbidden (keys v), ← find_forbidden_key-keys v)
      (passes (find_forbidden_key v))
  where
    passes :
        (o : Option String)
        → (elim o as (λ _. Result (Unit {0})) [
          | none ↦ ok tt
          | some key ↦
              err (
                workflow "child_session_denied" ("Forbidden child-session field detected: " <> key))
        ]
            ≡ ok tt)
          ↔ (is_some o ≡ false)
    passes none = (λ _. refl, λ _. refl)
    passes (some key) = (λ h. cc, λ h. cc)

-- A value passes the guard exactly when none of its keys, at any depth, spells parentid or
-- parentsessionid, in letters of either case and with anything in between that is neither letter nor
-- digit.
pub assert_no_child_session_iff :
    (v : Json) → (assert_no_child_session v ≡ ok tt) ↔ All (λ k. ¬ Denied k) (keys v)
assert_no_child_session_iff v = (
  λ h. (none_forbidden (keys v)).0 ((passes_iff v).0 h),
  λ h. (passes_iff v).1 ((none_forbidden (keys v)).1 h),
)
