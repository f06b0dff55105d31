-- ===== src/Hitl/Keys.antt =====
-- The keys of a gate: buildGateKey of src/workflow/hitl/gate-key.ts and the event keys of
-- src/workflow/hitl/keys.ts.
use sisu_kodo.Prelude.{
  ℕ, zero, suc, [], ◌∷◌, ◌++◌, map, Text, codes, to_lower, String, decimal_codes, if◌then◌else◌,
}
use sisu_kodo.Failure.{Result, ok, ◌>>=◌, ◌>>◌}
use sisu_kodo.Hitl.Topic.{is_gate_start, normalize_hitl_gate_key, assert_hitl_gate_key}

-- `s.substring(0, n)`
abbrev pub take : ℕ → Text → Text
take zero s = []
take (suc n) [] = []
take (suc n) (c ∷ s) = c ∷ take n s

-- `.replace(/[^a-z0-9]/g, "-")`
abbrev pub dash_unless_alnum : Text → Text
dash_unless_alnum s = map (λ c. if is_gate_start c then c else b'-') s

-- `sha256` is the hex digest of node:crypto.
module _ (sha256 : Text → Text) where
  unfoldable pub build_gate_key : String → String → String → ℕ → Result Text
  unfolding to_lower decimal_codes
  build_gate_key run_id step_id purpose attempt =
      let tuple : Text =
        codes run_id
        ++ (b':' ∷ (codes step_id ++ (b':' ∷ (codes purpose ++ (b':' ∷ decimal_codes attempt))))) in
      let hash : Text = take 16 (sha256 tuple) in
      let prefix : Text = take 16 (dash_unless_alnum (to_lower (codes purpose))) in
      normalize_hitl_gate_key (prefix ++ (b'-' ∷ hash))

unfoldable pub normalized_gate : Text → Result Text
normalized_gate gate_key = do
  normalized ← normalize_hitl_gate_key gate_key
  assert_hitl_gate_key normalized
  ok normalized

unfoldable pub to_hitl_prompt_key : Text → Result Text
to_hitl_prompt_key gate_key = do key ← normalized_gate gate_key; ok (codes "ui:" ++ key)

unfoldable pub to_hitl_result_key : Text → Result Text
to_hitl_result_key gate_key = do
  key ← normalized_gate gate_key
  ok (codes "ui:" ++ (key ++ codes ":result"))

unfoldable pub to_hitl_decision_key : Text → Result Text
to_hitl_decision_key gate_key = do key ← normalized_gate gate_key; ok (codes "decision:" ++ key)

unfoldable pub to_hitl_audit_key : Text → Result Text
to_hitl_audit_key gate_key = do
  key ← normalized_gate gate_key
  ok (codes "ui:" ++ (key ++ codes ":audit"))
