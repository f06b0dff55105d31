-- ===== src/Prelude/Json.antt =====
-- JSON values, as `unknown` payloads reach the program. A number is an integer: the program reads
-- counts, attempts and seconds from payloads.
use Prim.Native.Nat.{ℕ}
use Prim.Native.String.{String}
use mathlib.Core.Bool.{Bool}
use mathlib.Core.Option.{Option, none, some}
use sisu_kodo.Prelude.Tests.{ltb, ◌===◌, if◌then◌else◌}

-- `negsuc n` is -(n + 1).
pub data ℤ : Type 0 where
  pos : ℕ → ℤ
  negsuc : ℕ → ℤ

mutual
  pub data Json : Type 0 where
    null : Json
    bool : Bool → Json
    num : ℤ → Json
    str : String → Json
    arr : Items → Json
    obj : Fields → Json

  pub data Items : Type 0 where
    nil : Items
    cons : Json → Items → Items

  pub data Fields : Type 0 where
    end : Fields
    field : String → Json → Fields → Fields

-- `record[key]`; keys are written once, so the first one found is the only one.
abbrev pub get : Fields → String → Option Json
get end key = none
get (field k v fs) key = if k === key then some v else get fs key

-- The fields of a value that is an object and no array.
abbrev pub fields? : Json → Option Fields
fields? (obj fs) = some fs
fields? null = none
fields? (bool _) = none
fields? (num _) = none
fields? (str _) = none
fields? (arr _) = none

abbrev pub string? : Option Json → Option String
string? (some (str s)) = some s
string? _ = none

abbrev pub bool? : Option Json → Option Bool
bool? (some (bool b)) = some b
bool? _ = none

abbrev pub num? : Option Json → Option ℤ
num? (some (num z)) = some z
num? _ = none

-- `Math.max` on integers.
abbrev pub max_ℤ : ℤ → ℤ → ℤ
max_ℤ (pos a) (pos b) = if ltb a b then pos b else pos a
max_ℤ (pos a) (negsuc b) = pos a
max_ℤ (negsuc a) (pos b) = pos b
max_ℤ (negsuc a) (negsuc b) = if ltb a b then negsuc a else negsuc b
