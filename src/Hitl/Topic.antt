-- ===== src/Hitl/Topic.antt =====
-- Gate keys and topics: src/lib/hitl-topic.ts, src/workflow/hitl/gate-key.ts and
-- src/workflow/hitl/keys.ts. A regular expression is written out as a test of its characters.
pub mod Slug
use sisu_kodo.Prelude.{
  ℕ, Bool, true, false, not, ◌&&◌, ◌||◌, List, [], ◌∷◌, ◌++◌, map, all, length, Text, codes, trim,
  to_lower, lower, is_space, starts_with, decimal_codes, leb, ◌==◌, if◌then◌else◌, String,
}
use sisu_kodo.Failure.{Error, invalid_gate_key, plain, Result, ok, err, ◌>>=◌}

abbrev is_alnum : ℕ → Bool
is_alnum c = (leb b'a' c && leb c b'z') || (leb b'0' c && leb c b'9')

-- [a-z0-9:_-]
unfoldable pub is_gate_char : ℕ → Bool
is_gate_char c = is_alnum c || c == b':' || c == b'_' || c == b'-'

-- [a-z0-9]
unfoldable pub is_gate_start : ℕ → Bool
is_gate_start c = is_alnum c

-- /^[a-z0-9][a-z0-9:_-]{0,127}$/
unfoldable pub is_gate_key : Text → Bool
unfolding is_gate_start is_gate_char
is_gate_key [] = false
is_gate_key (c ∷ s) = is_gate_start c && all is_gate_char s && leb (length s) 127

-- `.replace(/p+/g, "-")`; the flag says that a run is open.
unfoldable pub replace_runs : (ℕ → Bool) → Bool → Text → Text
replace_runs p open_run [] = []
replace_runs p open_run (c ∷ s) =
    let inside = replace_runs p true s in
    let outside = replace_runs p false s in
    if p c then (if open_run then inside else b'-' ∷ inside) else c ∷ outside

abbrev pub is_dash : ℕ → Bool
is_dash c = c == b'-'

-- `.replace(/[^a-z0-9:_-]/g, "-")`
unfoldable pub replace_others : Text → Text
unfolding is_gate_char
replace_others s = map (λ c. if is_gate_char c then c else b'-') s

unfoldable pub to_normalized_slug : Text → Text
unfolding replace_runs replace_others trim to_lower is_space
to_normalized_slug value =
    replace_runs is_dash false
      (replace_others (replace_runs is_space false (to_lower (trim value))))

unfoldable pub normalize_hitl_gate_key : Text → Result Text
normalize_hitl_gate_key raw =
    let normalized : Text = to_normalized_slug raw in
    if is_gate_key normalized then ok normalized else err (invalid_gate_key raw)

unfoldable pub assert_hitl_gate_key : Text → Result (Unit {0})
assert_hitl_gate_key value = if is_gate_key value then ok tt else err (invalid_gate_key value)

unfoldable pub to_human_topic : Text → Result Text
to_human_topic gate_key = do key ← normalize_hitl_gate_key gate_key; ok (codes "human:" ++ key)

unfoldable pub to_system_topic : Text → Result Text
to_system_topic topic_key = do key ← normalize_hitl_gate_key topic_key; ok (codes "sys:" ++ key)
