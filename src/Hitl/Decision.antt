-- ===== src/Hitl/Decision.antt =====
-- A person's decision read from the payload of a reply: src/workflow/hitl/decision-payload.ts.
use sisu_kodo.Prelude.{
  Bool, true, false, ◌||◌, Option, none, some, Text, codes, trim, to_lower, same, String, ◌===◌,
  ◌≡◌, ◌↔◌, ◌⊎◌, if◌then◌else◌, ◌or_default◌, ◌or_else◌, eq_iff, arith,
}
use sisu_kodo.Prelude.Json.{Json, Fields, end, get, fields?, string?, bool?}

pub data Choice : Type 0 where
  yes no : Choice

unfoldable pub as_record : Json → Fields
as_record value = fields? value or_default end

unfoldable pub read_string : Fields → String → Option String
read_string record_ key = string? (get record_ key)

unfoldable pub normalize_decision_alias : String → Option Choice
unfolding trim to_lower
normalize_decision_alias value =
    let normalized : Text = to_lower (trim (codes value)) in
    if same normalized (codes "yes")
      || same normalized (codes "approve")
      || same normalized (codes "approved")
    then some yes
    else (if same normalized (codes "no")
          || same normalized (codes "reject")
          || same normalized (codes "rejected")
        then some no
        else none)

-- `choice === "yes" || choice === "no"`
unfoldable pub exact_choice : Option String → Option Choice
exact_choice none = none
exact_choice (some s) = if s === "yes" then some yes else (if s === "no" then some no else none)

unfoldable pub approved_choice : Option Bool → Option Choice
approved_choice none = none
approved_choice (some true) = some yes
approved_choice (some false) = some no

-- `decision ? normalizeDecisionAlias(decision) : null`
unfoldable pub alias_choice : Option String → Option Choice
alias_choice none = none
alias_choice (some s) = if s === "" then none else normalize_decision_alias s

unfoldable pub resolve_approval_choice : Json → Choice
unfolding as_record read_string exact_choice approved_choice alias_choice
resolve_approval_choice payload =
    let record_ : Fields = as_record payload in
    (exact_choice (read_string record_ "choice")
      or_else approved_choice (bool? (get record_ "approved"))
      or_else alias_choice (read_string record_ "decision"))
    or_default no

unfoldable pub resolve_approval_rationale : Json → Option String
unfolding as_record read_string
resolve_approval_rationale payload =
    let record_ : Fields = as_record payload in
    read_string record_ "rationale"
    or_else read_string record_ "reason"
    or_else read_string record_ "note"
    or_else read_string record_ "notes"

-- A payload approves when its choice is the word yes; or when, with no choice of yes or no, its
-- approved flag is true; or when, with neither, its decision is one of the words for yes.
abbrev pub IsApproval : Fields → Type 0
IsApproval r =
    (read_string r "choice" ≡ some "yes")
    ⊎ ((exact_choice (read_string r "choice") ≡ none)
        × ((bool? (get r "approved") ≡ some true)
            ⊎ ((bool? (get r "approved") ≡ none)
                × (alias_choice (read_string r "decision") ≡ some yes))))

decide_iff :
    (c : Option String) (a : Option Bool) (d : Option Choice)
    → (((exact_choice c or_else approved_choice a or_else d) or_default no) ≡ yes) ↔ (
        (c ≡ some "yes")
        ⊎ ((exact_choice c ≡ none) × ((a ≡ some true) ⊎ ((a ≡ none) × (d ≡ some yes)))))
unfolding exact_choice approved_choice
decide_iff none none none = ground arith
decide_iff none none (some yes) = ground arith
decide_iff none none (some no) = ground arith
decide_iff none (some true) d = ground arith
decide_iff none (some false) d = ground arith
decide_iff (some s) none none = ground (arith, eq_iff s "yes")
decide_iff (some s) none (some yes) = ground (arith, eq_iff s "yes")
decide_iff (some s) none (some no) = ground (arith, eq_iff s "yes")
decide_iff (some s) (some true) d = ground (arith, eq_iff s "yes")
decide_iff (some s) (some false) d = ground (arith, eq_iff s "yes")

-- Of every payload the choice is yes exactly when the payload approves: an explicit choice of yes;
-- with no yes or no as choice, an approved flag that is true; with neither, a word for yes as
-- decision. Every other payload, one that is no object included, is a no.
pub resolve_approval_choice_iff :
    (payload : Json) → (resolve_approval_choice payload ≡ yes) ↔ IsApproval (as_record payload)
unfolding resolve_approval_choice
resolve_approval_choice_iff payload =
    decide_iff (read_string (as_record payload) "choice")
      (bool? (get (as_record payload) "approved"))
      (alias_choice (read_string (as_record payload) "decision"))
