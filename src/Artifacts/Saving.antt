-- ===== src/Artifacts/Saving.antt =====
-- The artifacts of a sandbox's result: SaveArtifactsStepImpl.execute of
-- src/workflow/steps/save-artifacts.step.ts. The validator of the index is a parameter.
pub mod Address
pub mod Again
use sisu_kodo.Prelude.{
  ℕ, suc, String, Bool, Option, none, some, List, [], ◌∷◌, ◌++◌, ◌===◌, map, ◌<>◌, if◌then◌else◌,
  ◌or_default◌,
}
use mathlib.Core.Option
use sisu_kodo.Prelude.Json.{
  Json, num, str, arr, obj, pos, Items, nil, cons, Fields, end, field, get, fields?, string?, num?,
  ℤ,
}
use sisu_kodo.Prelude.Sorting.{sort_by}
use sisu_kodo.Failure.{Result, ok, err}
use sisu_kodo.Failure.Async.{Async, pure, lift, ◌>>=◌, ◌>>◌}
use sisu_kodo.Failure.Repeated.{do_each}
use sisu_kodo.Hash.{Platform, sha256}
use sisu_kodo.Sandbox.{SbxFile, SbxMetrics, SbxRes}
use sisu_kodo.Artifacts.Insertion.{ArtifactKey, ArtifactRef, ArtifactRow, insert_artifact}

pub record ArtifactEntry : Type 0 where
  pub kind : String
  pub uri : String
  pub sha256 : String
  pub inline : Option Json

pub record SandboxConfig : Type 0 where
  pub sbx_mode : String
  pub sbx_provider : String

-- `buildArtifactUri`, on strings.
abbrev pub uri_of : String → String → String → String → String
uri_of run_id step_id task_key name =
    "artifact://run/"
    <> (run_id <> ("/step/" <> (step_id <> ("/task/" <> (task_key <> ("/" <> name))))))

abbrev text_json : String → Json
text_json s = obj (field "text" (str s) end)

abbrev pub as_json : Json → Json
as_json v = obj (field "json" v end)

abbrev metrics_json : SbxMetrics → Json
metrics_json m = obj (
    field "wallMs" (num (pos m.wall_ms))
      (field "cpuMs" (num (pos m.cpu_ms)) (field "memPeakMB" (num (pos m.mem_peak_mb)) end)))

-- `file.inline ? { text: file.inline } : undefined`
abbrev inline_text : Option String → Option Json
inline_text none = none
inline_text (some s) = if s === "" then none else some (text_json s)

abbrev raw_of : SbxRes → Fields
raw_of result = result.raw or_default end

abbrev pub provider_of : SandboxConfig → SbxRes → String
provider_of cfg result =
    string? (get (raw_of result) "provider")
    or_default (if cfg.sbx_mode === "mock" then "mock" else cfg.sbx_provider)

-- A member that is copied where it is a string.
abbrev copied : String → Fields → Fields → Fields
copied name meta rest = elim (string? (get meta name)) [
  | none ↦ rest
  | some s ↦ field name (str s) rest
]

abbrev template_meta : SbxRes → Option Fields
template_meta result = elim (get (raw_of result) "template") [ none ↦ none | some v ↦ fields? v ]

abbrev meta_diag : Option Fields → Fields
meta_diag none = end
meta_diag (some meta) = copied "source" meta (
    copied "templateId" meta
      (copied "templateKey" meta (copied "depsHash" meta (copied "envRef" meta end))))

-- What is told of the boot, if anything is known of it.
abbrev diag_of : Option Fields → Option ℤ → Option Fields
diag_of none none = none
diag_of (some meta) none = some (meta_diag (some meta))
diag_of meta (some ms) = some (field "bootMs" (num ms) (meta_diag meta))

unfoldable pub boot_diag : SbxRes → Option Fields
boot_diag result = diag_of (template_meta result) (num? (get (raw_of result) "bootMs"))

unfoldable pub items_json : List ArtifactEntry → Items
items_json [] = nil
items_json (e ∷ es) =
    cons
      (obj
        (field "kind" (str e.kind) (field "uri" (str e.uri) (field "sha256" (str e.sha256) end))))
      (items_json es)

-- `idx` counts the entries from 1.
unfoldable pub numbered : ℕ → List ArtifactEntry → List (ℕ × ArtifactEntry)
numbered idx [] = []
numbered idx (e ∷ es) = (idx, e) ∷ numbered (suc idx) es

abbrev pub ref_of : ArtifactEntry → ArtifactRef
ref_of e = record { kind = e.kind; uri = some e.uri; inline = e.inline; sha256 = e.sha256 }

-- The row that an insertion answers with is not used.
abbrev pub inserted : Result ArtifactRow × List ArtifactRow → Result (Unit {0}) × List ArtifactRow
inserted (ok row, rows) = (ok tt, rows)
inserted (err e, rows) = (err e, rows)

module _ (p : Platform) (cfg : SandboxConfig) (run_id step_id : String) (result : SbxRes)
    (attempt : ℕ) where
  abbrev pub named : String → String
  named name = uri_of run_id step_id result.task_key name

  abbrev pub json_entry : String → String → Json → ArtifactEntry
  json_entry kind name v = record {
    kind = kind;
    uri = named name;
    sha256 = sha256 p v;
    inline = some (as_json v);
  }

  abbrev log_entry : String → String → String → ArtifactEntry
  log_entry kind name text = record {
    kind = kind;
    uri = named name;
    sha256 = sha256 p (str text);
    inline = some (text_json text);
  }

  abbrev file_entry : SbxFile → ArtifactEntry
  file_entry file = record {
    kind = "file";
    uri = named ("files/" <> file.path);
    sha256 = file.sha256;
    inline = inline_text file.inline;
  }

  abbrev boot_entries : Option Fields → List ArtifactEntry
  boot_entries none = []
  boot_entries (some diag) = json_entry "json_diagnostic" "sbx-boot.json" (obj diag) ∷ []

  unfoldable pub entries : List ArtifactEntry
  unfolding boot_diag
  entries =
      log_entry "stdout" "stdout.log" result.stdout
      ∷ log_entry "stderr" "stderr.log" result.stderr
      ∷ (map file_entry (sort_by (λ (a b : SbxFile). p.locale_le a.path b.path) result.files_out)
          ++ json_entry "raw" "raw.json" (obj (raw_of result))
            ∷ json_entry "timings" "metrics.json" (metrics_json result.metrics)
            ∷ boot_entries (boot_diag result))

  abbrev pub ordered_entries : List ArtifactEntry
  ordered_entries = sort_by (λ (a b : ArtifactEntry). p.locale_le a.uri b.uri) entries

  unfoldable pub index_json : Json
  index_json = obj (
      field "taskKey" (str result.task_key) (
        field "provider" (str (provider_of cfg result)) (
          field "items" (arr (items_json ordered_entries)) (
            field "rawRef" (str (named "raw.json"))
              (field "createdAt" (str "1970-01-01T00:00:00.000Z") end)))))

  abbrev pub index_entry : ArtifactEntry
  index_entry = json_entry "artifact_index" "index.json" index_json

  abbrev pub key_at : ℕ → ArtifactKey
  key_at idx = record {
    run_id = run_id;
    step_id = step_id;
    task_key = result.task_key;
    idx = idx;
    attempt = attempt;
  }

  unfoldable pub insert_entry : ℕ → ℕ × ArtifactEntry → Async (List ArtifactRow) (Unit {0})
  insert_entry now (idx, e) rows = inserted (insert_artifact now rows (key_at idx) (ref_of e))

  unfoldable pub insert_entries : ℕ → Async (List ArtifactRow) (Unit {0})
  insert_entries now =
      insert_entry now (0, index_entry) >> do_each (insert_entry now) (numbered 1 ordered_entries)

  -- The address of the index is the answer.
  unfoldable pub save_artifacts : (Json → Result (Unit {0})) → ℕ → Async (List ArtifactRow) String
  save_artifacts assert_artifact_index now =
      lift (assert_artifact_index index_json) >> (insert_entries now >> pure (named "index.json"))
