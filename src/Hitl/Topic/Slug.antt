-- ===== src/Hitl/Topic/Slug.antt =====
-- What a normalised slug looks like, and that normalising it again changes nothing
-- (toNormalizedSlug of src/lib/hitl-topic.ts).
use mathlib.Core.List.{reverse-reverse, reverse_aux}
use sisu_kodo.Prelude.{
  ℕ, Bool, true, false, ◌&&◌, [], ◌∷◌, map, all, Text, trim, to_lower, lower, is_space, drop_spaces,
  reverse, ◌≡◌, refl, arith,
}
use sisu_kodo.Failure.{ok}
use sisu_kodo.Hitl.Topic.{
  is_gate_char, is_gate_key, replace_runs, is_dash, replace_others, to_normalized_slug,
  normalize_hitl_gate_key,
}

gate_char_plain : (c : ℕ) → is_gate_char c ≡ true → (is_space c ≡ false) × (lower c ≡ c)
unfolding is_gate_char is_space lower
gate_char_plain c h = ground arith

-- No two dashes in a row, and none at the start if a run is open.
abbrev pub NoDouble : Bool → Text → Type 0
NoDouble open_run [] = Unit
NoDouble open_run (c ∷ s) = ((open_run && is_dash c) ≡ false) × NoDouble (is_dash c) s

replace_others-gate : (s : Text) → all is_gate_char (replace_others s) ≡ true
unfolding replace_others
replace_others-gate [] = refl
replace_others-gate (c ∷ s) = ground (arith, replace_others-gate s)

dashes-gate :
    (open_run : Bool) (s : Text)
    → all is_gate_char s ≡ true
    → all is_gate_char (replace_runs is_dash open_run s) ≡ true
unfolding replace_runs
dashes-gate open_run [] h = refl
dashes-gate open_run (c ∷ s) h = ground (arith, dashes-gate true s, dashes-gate false s)

dashes-NoDouble : (open_run : Bool) (s : Text) → NoDouble open_run (replace_runs is_dash open_run s)
unfolding replace_runs
dashes-NoDouble open_run [] = tt
dashes-NoDouble open_run (c ∷ s) = ground (arith, dashes-NoDouble true s, dashes-NoDouble false s)

dashes_of_NoDouble :
    (open_run : Bool) (s : Text) → NoDouble open_run s → replace_runs is_dash open_run s ≡ s
unfolding replace_runs
dashes_of_NoDouble open_run [] h = refl
dashes_of_NoDouble open_run (c ∷ s) (h, k) =
    ground (arith, dashes_of_NoDouble true s, dashes_of_NoDouble false s)

spaces_of_gate :
    (open_run : Bool) (s : Text) → all is_gate_char s ≡ true → replace_runs is_space open_run s ≡ s
unfolding replace_runs
spaces_of_gate open_run [] h = refl
spaces_of_gate open_run (c ∷ s) h = ground (arith, gate_char_plain c, spaces_of_gate false s)

others_of_gate : (s : Text) → all is_gate_char s ≡ true → replace_others s ≡ s
unfolding replace_others
others_of_gate [] h = refl
others_of_gate (c ∷ s) h = ground (arith, others_of_gate s)

lower_of_gate : (s : Text) → all is_gate_char s ≡ true → map lower s ≡ s
lower_of_gate [] h = refl
lower_of_gate (c ∷ s) h = ground (arith, gate_char_plain c, lower_of_gate s)

drop_spaces_of_gate : (s : Text) → all is_gate_char s ≡ true → drop_spaces s ≡ s
drop_spaces_of_gate [] h = refl
drop_spaces_of_gate (c ∷ s) h = ground (arith, gate_char_plain c)

all-reverse_aux :
    (p : ℕ → Bool) (s t : Text) → all p s ≡ true → all p t ≡ true → all p (reverse_aux s t) ≡ true
all-reverse_aux p [] t h k = k
all-reverse_aux p (c ∷ s) t h k = all-reverse_aux p s (c ∷ t) (ground arith) (ground arith)

trim_of_gate : (s : Text) → all is_gate_char s ≡ true → trim s ≡ s
unfolding trim
trim_of_gate s h = rw (drop_spaces_of_gate s h) (
    rw (drop_spaces_of_gate (reverse s) (all-reverse_aux is_gate_char s [] h refl))
      (reverse-reverse s))

-- A text of gate characters without a double dash is its own slug.
pub to_normalized_slug_of_gate :
    (s : Text) → all is_gate_char s ≡ true → NoDouble false s → to_normalized_slug s ≡ s
unfolding to_normalized_slug to_lower
to_normalized_slug_of_gate s h d = rw (trim_of_gate s h) (
    rw (lower_of_gate s h)
      (rw (spaces_of_gate false s h) (rw (others_of_gate s h) (dashes_of_NoDouble false s d))))

-- Every slug is made of gate characters, with no dash doubled.
pub to_normalized_slug_shape :
    (raw : Text)
    → (all is_gate_char (to_normalized_slug raw) ≡ true) × NoDouble false (to_normalized_slug raw)
unfolding to_normalized_slug
to_normalized_slug_shape raw = (
  dashes-gate false (replace_others (replace_runs is_space false (to_lower (trim raw))))
      (replace_others-gate (replace_runs is_space false (to_lower (trim raw)))),
  dashes-NoDouble false (replace_others (replace_runs is_space false (to_lower (trim raw)))),
)

pub normalized_inv :
    (raw : Text) {key : Text}
    → normalize_hitl_gate_key raw ≡ ok key
    → (to_normalized_slug raw ≡ key) × (is_gate_key key ≡ true)
unfolding normalize_hitl_gate_key
normalized_inv raw h = ground arith

pub normalized_of_slug :
    (raw key : Text)
    → to_normalized_slug raw ≡ key
    → is_gate_key key ≡ true
    → normalize_hitl_gate_key raw ≡ ok key
unfolding normalize_hitl_gate_key
normalized_of_slug raw key e v = rw (e, v) refl

-- A normalised gate key is valid, and normalising it again gives it back.
pub normalize_idempotent :
    (raw : Text) {key : Text}
    → normalize_hitl_gate_key raw ≡ ok key
    → (is_gate_key key ≡ true) × (normalize_hitl_gate_key key ≡ ok key)
normalize_idempotent raw {key} h =
    let (slug, valid) = normalized_inv raw h in
    let shape : (all is_gate_char key ≡ true) × NoDouble false key =
      rw slug at (to_normalized_slug_shape raw) in
    (valid, normalized_of_slug key key (to_normalized_slug_of_gate key shape.0 shape.1) valid)
