-- ===== src/Sandbox/Provider.antt =====
-- Failures of sandbox providers, and the choice of a provider: src/sbx/failure.ts, src/sbx/factory.ts.
use sisu_kodo.Prelude.{
  ℕ, zero, suc, String, Bool, true, false, not, ◌||◌, Option, none, some, List, [], ◌∷◌, ◌++◌, Text,
  codes, to_lower, contains, any, ◌<>◌, if◌then◌else◌, ◌or_default◌, ◌≡◌, ◌↔◌, arith,
}
use sisu_kodo.Failure.{Error, message, plain, Result, ok, err}
use sisu_kodo.Sandbox.{
  SbxErrCode, boot_fail, cmd_nonzero, timeout, oom, net_fail, upload_fail, download_fail,
}

-- What a provider may throw: an error, a text, or a value with its JSON text.
pub data Thrown : Type 0 where
  error_value : Error → Thrown
  text : String → Thrown
  value : String → Thrown

pub record ProviderFailure : Type 0 where
  pub exit_code : Option ℕ
  pub stderr : Option String
  pub error : Option Thrown

pub data SbxMode : Type 0 where
  mock live : SbxMode

pub data SbxProvider : Type 0 where
  e2b microsandbox : SbxProvider
  other : String → SbxProvider

pub record SbxFactoryConfig : Type 0 where
  pub sbx_mode : SbxMode
  pub sbx_provider : SbxProvider
  pub sbx_alt_provider_enabled : Bool

pub data Port : Type 0 where
  mock_port e2b_port microsandbox_port : Port

unfoldable pub includes_any : Text → List String → Bool
includes_any haystack needles = any (λ needle. contains (to_lower haystack) (codes needle)) needles

-- A missing error has no JSON text, and reads "undefined".
abbrev pub to_error_text : Option Thrown → String
to_error_text none = "undefined"
to_error_text (some (error_value e)) = message e
to_error_text (some (text s)) = s
to_error_text (some (value json)) = json

abbrev pub is_retryable_infra_err_code : SbxErrCode → Bool
is_retryable_infra_err_code boot_fail = true
is_retryable_infra_err_code net_fail = true
is_retryable_infra_err_code upload_fail = true
is_retryable_infra_err_code download_fail = true
is_retryable_infra_err_code _ = false

abbrev pub timeout_words : List String
timeout_words =
    "timeout" ∷ "timed out" ∷ "etimedout" ∷ "command timed out" ∷ "deadline exceeded" ∷ []

abbrev pub oom_words : List String
oom_words = "out of memory" ∷ "oom" ∷ "killed process" ∷ []

abbrev pub net_words : List String
net_words = "enotfound" ∷ "econnrefused" ∷ "econnreset" ∷ "network" ∷ "dns" ∷ "socket hang up" ∷ []

abbrev pub upload_words : List String
upload_words = "upload" ∷ "write file" ∷ "filesin" ∷ []

abbrev pub download_words : List String
download_words = "download" ∷ "read file" ∷ "filesout" ∷ []

-- `${stderr}\n${errorText}`
unfoldable pub combined : ProviderFailure → Text
combined input = codes (input.stderr or_default "") ++ 10 ∷ codes (to_error_text input.error)

abbrev pub nonzero : Option ℕ → Bool
nonzero none = false
nonzero (some zero) = false
nonzero (some (suc n)) = true

unfoldable pub normalize_provider_failure : ProviderFailure → SbxErrCode
unfolding combined
normalize_provider_failure input =
    let words = combined input in
    if includes_any words timeout_words
    then timeout
    else if includes_any words oom_words
    then oom
    else if includes_any words net_words
    then net_fail
    else if includes_any words upload_words
    then upload_fail
    else if includes_any words download_words
    then download_fail
    else if nonzero input.exit_code
    then cmd_nonzero
    else boot_fail

unfoldable pub resolve_live_provider : SbxFactoryConfig → Result Port
resolve_live_provider cfg = elim cfg.sbx_provider [
  | e2b ↦ ok e2b_port
  | microsandbox ↦
      if not cfg.sbx_alt_provider_enabled
      then err (plain "microsandbox provider is disabled; set SBX_ALT_PROVIDER_ENABLED=true")
      else ok microsandbox_port
  | other name ↦ err (plain ("unsupported live SBX provider: " <> name))
]

abbrev pub is_mock : SbxMode → Bool
is_mock mock = true
is_mock live = false

unfoldable pub resolve_run_in_sbx_port : Option SbxMode → SbxFactoryConfig → Result Port
unfolding resolve_live_provider
resolve_run_in_sbx_port mode_override cfg =
    if is_mock (mode_override or_default cfg.sbx_mode)
    then ok mock_port
    else resolve_live_provider cfg

-- A failure is retried exactly when nothing in it speaks of a timeout or of memory, and it speaks of
-- the network or of a transfer, or else no command came back with an exit code other than 0.
pub normalize_provider_failure-retryable_iff :
    (input : ProviderFailure)
    → (is_retryable_infra_err_code (normalize_provider_failure input) ≡ true) ↔ (
        (includes_any (combined input) timeout_words ≡ false)
        × (includes_any (combined input) oom_words ≡ false)
        × ((includes_any (combined input) net_words
              || includes_any (combined input) upload_words
              || includes_any (combined input) download_words
              || not (nonzero input.exit_code))
            ≡ true))
unfolding normalize_provider_failure
normalize_provider_failure-retryable_iff input = ground arith
