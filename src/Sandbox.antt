-- ===== src/Sandbox.antt =====
-- Sandbox requests and results (src/contracts/sbx/sbx-res.schema.ts, sbx-req.schema.ts), and the
-- merge of a fan-out's results (mergeResults of src/workflow/wf/run-intent.wf.ts).
pub mod Merging
pub mod Provider
pub mod Templates
use sisu_kodo.Prelude.{
  ℕ, ◌+◌, max, String, Option, none, some, Bool, true, false, not, List, [], ◌∷◌, ◌++◌, map, find,
  filter, join, ◌===◌, if◌then◌else◌, ◌or_default◌,
}
use sisu_kodo.Prelude.Json.{
  ℤ, pos, Json, num, str, arr, obj, Items, nil, cons, Fields, end, field, get, num?, max_ℤ,
}

pub data SbxErrCode : Type 0 where
  none_code boot_fail cmd_nonzero timeout oom net_fail upload_fail download_fail : SbxErrCode

pub record SbxMetrics : Type 0 where
  pub wall_ms : ℕ
  pub cpu_ms : ℕ
  pub mem_peak_mb : ℕ

pub record SbxFile : Type 0 where
  pub path : String
  pub sha256 : String
  pub inline : Option String
  pub uri : Option String

pub record SbxRes : Type 0 where
  pub exit : ℕ
  pub stdout : String
  pub stderr : String
  pub files_out : List SbxFile
  pub metrics : SbxMetrics
  pub sandbox_ref : String
  pub err_code : SbxErrCode
  pub task_key : String
  pub artifact_index_ref : Option String
  pub raw : Option Fields

pub record SbxFileIn : Type 0 where
  pub path : String
  pub inline : Option String
  pub uri : Option String

pub record SbxReq : Type 0 where
  pub env_ref : String
  pub template_id : Option String
  pub template_key : Option String
  pub deps_hash : Option String
  pub cmd : String
  pub files_in : List SbxFileIn
  pub env : List (String × String)
  pub workdir : Option String
  pub timeout_ms : ℕ
  pub cpu : ℕ
  pub mem_mb : ℕ
  pub net : Bool
  pub task_key : String

abbrev pub err_code_name : SbxErrCode → String
err_code_name SbxErrCode.none_code = "NONE"
err_code_name SbxErrCode.boot_fail = "BOOT_FAIL"
err_code_name SbxErrCode.cmd_nonzero = "CMD_NONZERO"
err_code_name SbxErrCode.timeout = "TIMEOUT"
err_code_name SbxErrCode.oom = "OOM"
err_code_name SbxErrCode.net_fail = "NET_FAIL"
err_code_name SbxErrCode.upload_fail = "UPLOAD_FAIL"
err_code_name SbxErrCode.download_fail = "DOWNLOAD_FAIL"

abbrev pub is_none : SbxErrCode → Bool
is_none SbxErrCode.none_code = true
is_none _ = false

abbrev pub raw_attempt : SbxRes → Option ℤ
raw_attempt r = elim r.raw [ none ↦ none | some fs ↦ num? (get fs "attempt") ]

abbrev pub merge_metrics : SbxMetrics → SbxRes → SbxMetrics
merge_metrics acc r = record {
  wall_ms = max acc.wall_ms r.metrics.wall_ms;
  cpu_ms = acc.cpu_ms + r.metrics.cpu_ms;
  mem_peak_mb = max acc.mem_peak_mb r.metrics.mem_peak_mb;
}

unfoldable pub reduce_metrics : SbxMetrics → List SbxRes → SbxMetrics
reduce_metrics acc [] = acc
reduce_metrics acc (r ∷ rs) = reduce_metrics (merge_metrics acc r) rs

-- `results.reduce((max, r) => Math.max(max, attempt of r or 1), 1)`
unfoldable pub reduce_attempt : ℤ → List SbxRes → ℤ
reduce_attempt acc [] = acc
reduce_attempt acc (r ∷ rs) = reduce_attempt (max_ℤ acc (raw_attempt r or_default pos 1)) rs

-- `attempt: r.raw?.attempt` of the summary; a missing one leaves no field.
abbrev attempt_field : SbxRes → Fields
attempt_field r = elim r.raw [
  | none ↦ end
  | some fs ↦ elim (get fs "attempt") [ none ↦ end | some v ↦ field "attempt" v end ]
]

abbrev metrics_json : SbxMetrics → Json
metrics_json m = obj (
    field "wallMs" (num (pos m.wall_ms))
      (field "cpuMs" (num (pos m.cpu_ms)) (field "memPeakMB" (num (pos m.mem_peak_mb)) end)))

abbrev pub task_summary : SbxRes → Json
task_summary r = obj (
    field "taskKey" (str r.task_key) (
      field "errCode" (str (err_code_name r.err_code)) (
        field "exit" (num (pos r.exit)) (
          field "artifactIndexRef" (str (r.artifact_index_ref or_default ""))
            (field "metrics" (metrics_json r.metrics) (attempt_field r))))))

unfoldable pub task_summaries : List SbxRes → Items
task_summaries [] = nil
task_summaries (r ∷ rs) = cons (task_summary r) (task_summaries rs)

-- `.map((r) => r.artifactIndexRef).filter((ref) => typeof ref === "string" && ref.length > 0)`
abbrev artifact_refs : List SbxRes → List String
artifact_refs [] = []
artifact_refs (r ∷ rs) =
    let rest = artifact_refs rs in
    elim r.artifact_index_ref [ none ↦ rest | some ref ↦ if ref === "" then rest else ref ∷ rest ]

abbrev all_files : List SbxRes → List SbxFile
all_files [] = []
all_files (r ∷ rs) = r.files_out ++ all_files rs

-- The first result, in task order, that carries an error code.
unfoldable pub first_error : List SbxRes → Option SbxRes
first_error results = find (λ r. not (is_none r.err_code)) results

abbrev zero_metrics : SbxMetrics
zero_metrics = record { wall_ms = 0; cpu_ms = 0; mem_peak_mb = 0 }

unfoldable pub merge_results : List SbxRes → SbxRes
unfolding reduce_metrics reduce_attempt task_summaries first_error
merge_results results =
    let failed = first_error results in
    record {
      exit = elim failed [ none ↦ 0 | some r ↦ r.exit ];
      stdout = join "\n---\n" (map (λ (r : SbxRes). r.stdout) results);
      stderr = join "\n---\n" (map (λ (r : SbxRes). r.stderr) results);
      files_out = all_files results;
      metrics = reduce_metrics zero_metrics results;
      sandbox_ref = join "," (map (λ (r : SbxRes). r.sandbox_ref) results);
      err_code = elim failed [ none ↦ SbxErrCode.none_code | some r ↦ r.err_code ];
      task_key = "aggregated";
      artifact_index_ref = some (join "," (artifact_refs results));
      raw = some (
          field "attempt" (num (reduce_attempt (pos 1) results))
            (field "tasks" (arr (task_summaries results)) end));
    }
