-- ===== src/Oc/Guard.antt =====
-- No child sessions: src/oc/child-session-guard.ts.
pub mod Spelled
use sisu_kodo.Prelude.{
  ℕ, ◌+◌, ◌≤◌, String, Bool, true, false, ◌&&◌, ◌||◌, Option, none, some, List, [], ◌∷◌, ◌++◌, Text,
  codes, map, ◌==◌, ◌⊎◌, arith, ap, ◌∙◌, All, filter, leb, same, same_iff, any, find, is_some,
  ◌or_else◌, ◌<>◌, if◌then◌else◌, ◌≡◌, ◌↔◌, refl, sym, Bool-cases, inl, inr,
}
use sisu_kodo.Prelude.Json.{
  Json, null, bool, num, str, arr, obj, Items, nil, cons, Fields, end, field,
}
use sisu_kodo.Failure.{workflow, Result, ok, err}

unfoldable pub is_alphanumeric : ℕ → Bool
is_alphanumeric c = (leb b'a' c && leb c b'z') || (leb b'0' c && leb c b'9')

-- `toLowerCase`, as far as it leads to a letter or digit: besides A to Z, the capital I with a dot gives
-- an i, and a mark that is no letter, and the sign of the kelvin gives a k.
unfoldable pub lower_letter : ℕ → ℕ
lower_letter c =
    if leb b'A' c && leb c b'Z'
    then c + 32
    else if c == 304
    then b'i'
    else if c == 8490
    then b'k'
    else c

unfoldable pub normalize_key : String → Text
unfolding is_alphanumeric lower_letter
normalize_key key = filter is_alphanumeric (map lower_letter (codes key))

unfoldable pub is_forbidden : String → Bool
is_forbidden key =
    same (normalize_key key) (codes "parentid")
    || same (normalize_key key) (codes "parentsessionid")

unfoldable mutual
  pub find_forbidden_key : Json → Option String
  find_forbidden_key (arr items) = find_in_items items
  find_forbidden_key (obj fields) = find_in_fields fields
  find_forbidden_key null = none
  find_forbidden_key (bool _) = none
  find_forbidden_key (num _) = none
  find_forbidden_key (str _) = none

  pub find_in_items : Items → Option String
  find_in_items nil = none
  find_in_items (cons item items) = find_forbidden_key item or_else find_in_items items

  pub find_in_fields : Fields → Option String
  find_in_fields end = none
  find_in_fields (field key nested fields) =
      if is_forbidden key then some key else find_forbidden_key nested or_else find_in_fields fields

unfoldable pub assert_no_child_session : Json → Result (Unit {0})
assert_no_child_session value = elim (find_forbidden_key value) [
  | none ↦ ok tt
  | some key ↦
      err (workflow "child_session_denied" ("Forbidden child-session field detected: " <> key))
]

-- Every key of a value, at any depth, in the order of the walk.
unfoldable mutual
  pub keys : Json → List String
  keys (arr items) = keys_of_items items
  keys (obj fields) = keys_of_fields fields
  keys null = []
  keys (bool _) = []
  keys (num _) = []
  keys (str _) = []

  pub keys_of_items : Items → List String
  keys_of_items nil = []
  keys_of_items (cons item items) = keys item ++ keys_of_items items

  pub keys_of_fields : Fields → List String
  keys_of_fields end = []
  keys_of_fields (field key nested fields) = key ∷ keys nested ++ keys_of_fields fields
