-- ===== src/Queue/Numbers.antt =====
-- Number.parseInt on the version of a recipe: src/workflow/queue-policy.ts.
use sisu_kodo.Prelude.{
  ℕ, zero, suc, ◌+◌, ◌*◌, ◌-◌, Bool, ◌&&◌, Option, none, some, [], ◌∷◌, Text, codes, drop_spaces,
  is_space, String, leb, ◌==◌, if◌then◌else◌,
}
use sisu_kodo.Prelude.Json.{ℤ, pos, negsuc}

abbrev is_digit : ℕ → Bool
is_digit c = leb b'0' c && leb c b'9'

-- The value of the digits that a text begins with, after a value read before them.
digits_value : ℕ → Text → ℕ
digits_value acc [] = acc
digits_value acc (c ∷ s) =
    let more = digits_value (acc * 10 + (c - b'0')) s in if is_digit c then more else acc

abbrev negated : ℕ → ℤ
negated zero = pos 0
negated (suc n) = negsuc n

unsigned : (ℕ → ℤ) → Text → Option ℤ
unfolding digits_value
unsigned sign [] = none
unsigned sign (c ∷ s) = if is_digit c then some (sign (digits_value 0 (c ∷ s))) else none

signed : Text → Option ℤ
unfolding unsigned
signed [] = none
signed (c ∷ s) =
    if c == b'-'
    then unsigned negated s
    else (if c == b'+' then unsigned pos s else unsigned pos (c ∷ s))

-- `Number.parseInt(s, 10)`
unfoldable pub parse_int : String → Option ℤ
unfolding signed is_space
parse_int s = signed (drop_spaces (codes s))

-- `Number.parseInt(v, 10) || 1`
abbrev pub version_number : String → ℤ
version_number v = elim (parse_int v) [
  | none ↦ pos 1
  | some z ↦ elim z [ pos n ↦ (if n == 0 then pos 1 else pos n) | negsuc n ↦ negsuc n ]
]
