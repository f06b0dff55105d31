-- ===== src/Prelude/Texts.antt =====
-- Text: whole strings are native; text that the program walks or builds keys from is the list of
-- its code points. Letters outside ASCII have no case here.
use Prim.Native.Nat.{ℕ, zero, suc, ◌+◌, ◌/◌, ◌%◌}
use Prim.Native.Char.{code}
use Prim.Native.String
use Prim.Native.String.{String}
use mathlib.Core.Path.{◌≡◌, refl}
use mathlib.Core.Logic.{◌↔◌}
use mathlib.Core.Bool.{Bool, true, false, ◌&&◌, ◌||◌}
use mathlib.Core.List.{List, [], ◌∷◌, map, reverse}
use native.Mathlib.Omega.{arith}
use text.Mathlib.Text.{find?}
use sisu_kodo.Prelude.Tests.{leb, ◌==◌, if◌then◌else◌, is_some}

abbrev pub Text : Type 0
Text = List ℕ

abbrev pub codes : String → Text
codes String.[] = []
codes (String.◌∷◌ c s) = code c ∷ codes s

-- `s.includes(t)`
abbrev pub includes : String → String → Bool
includes s t = is_some (find? s t)

infixl 65 ◌<>◌
-- `${s}${t}`
abbrev pub ◌<>◌ : String → String → String
s <> t = String.◌++◌ s t

-- `ss.join(sep)`
abbrev pub join : String → List String → String
join sep [] = ""
join sep (s ∷ []) = s
join sep (s ∷ t ∷ ss) = s <> (sep <> join sep (t ∷ ss))

abbrev digit : ℕ → String
digit zero = "0"
digit (suc zero) = "1"
digit (suc (suc zero)) = "2"
digit (suc (suc (suc zero))) = "3"
digit (suc (suc (suc (suc zero)))) = "4"
digit (suc (suc (suc (suc (suc zero))))) = "5"
digit (suc (suc (suc (suc (suc (suc zero)))))) = "6"
digit (suc (suc (suc (suc (suc (suc (suc zero))))))) = "7"
digit (suc (suc (suc (suc (suc (suc (suc (suc zero)))))))) = "8"
digit _ = "9"

decimal_from : ℕ → ℕ → String
decimal_from zero n = ""
decimal_from (suc fuel) n =
    let front = decimal_from fuel (n / 10) in (if n / 10 == 0 then "" else front) <> digit (n % 10)

-- `String(n)`; a number has at most as many digits as its successor counts.
unfoldable pub decimal : ℕ → String
unfolding decimal_from
decimal n = decimal_from (suc n) n

-- The digits of a number as code points.
unfoldable pub decimal_codes : ℕ → Text
unfolding decimal
decimal_codes n = codes (decimal n)

-- `===` on texts.
abbrev pub same : Text → Text → Bool
same [] [] = true
same [] (_ ∷ _) = false
same (_ ∷ _) [] = false
same (a ∷ s) (b ∷ t) = a == b && same s t

pub same_iff : (s t : Text) → (same s t ≡ true) ↔ (s ≡ t)
same_iff [] [] = (λ _. refl, λ _. refl)
same_iff [] (b ∷ t) = (λ h. cc, λ h. cc)
same_iff (a ∷ s) [] = (λ h. cc, λ h. cc)
same_iff (a ∷ s) (b ∷ t) =
    (λ h. ground (arith, (same_iff s t).0), λ h. ground (arith, (same_iff s t).1))

-- `s.startsWith(prefix)`
abbrev pub starts_with : Text → Text → Bool
starts_with s [] = true
starts_with [] (_ ∷ _) = false
starts_with (a ∷ s) (b ∷ t) = a == b && starts_with s t

-- `s.includes(t)` on texts.
abbrev pub contains : Text → Text → Bool
contains [] t = starts_with [] t
contains (a ∷ s) t = starts_with (a ∷ s) t || contains s t

-- `c.toLowerCase()`
unfoldable pub lower : ℕ → ℕ
lower c = if leb b'A' c && leb c b'Z' then c + 32 else c

-- What `\s` matches and `trim` removes.
unfoldable pub is_space : ℕ → Bool
is_space c =
    (leb 9 c && leb c 13)
    || c == 32
    || c == 160
    || c == 5760
    || (leb 8192 c && leb c 8202)
    || c == 8232
    || c == 8233
    || c == 8239
    || c == 8287
    || c == 12288
    || c == 65279

abbrev pub drop_spaces : Text → Text
drop_spaces [] = []
drop_spaces (c ∷ s) = let rest = drop_spaces s in if is_space c then rest else c ∷ s

-- `s.trim()`
unfoldable pub trim : Text → Text
unfolding is_space
trim s = reverse (drop_spaces (reverse (drop_spaces s)))

-- `s.toLowerCase()`
unfoldable pub to_lower : Text → Text
unfolding lower
to_lower s = map lower s
