-- ===== src/Examples/Saving.antt =====
-- The theorem on saved artifacts at a concrete result, with a file and what is told of the boot.
use sisu_kodo.Prelude.{String, some, none, List, [], ◌∷◌, ◌≡◌, refl, length}
use sisu_kodo.Prelude.Json.{str, num, pos, obj, end, field}
use sisu_kodo.Failure.{Result, ok}
use sisu_kodo.Failure.Async.{pure, lift, ◌>>=◌, ◌>>◌}
use sisu_kodo.Failure.Repeated.{do_each}
use sisu_kodo.Sandbox.{SbxErrCode, SbxRes}
use sisu_kodo.Artifacts.Insertion.{ArtifactRow, find_artifact, insert_artifact}
use sisu_kodo.Artifacts.Saving.{
  SandboxConfig, boot_diag, numbered, entries, insert_entry, insert_entries, save_artifacts,
}
use sisu_kodo.Artifacts.Saving.Again.{saving}
use sisu_kodo.Examples.Registry.{plain_text}

abbrev mocked : SandboxConfig
mocked = record { sbx_mode = "mock"; sbx_provider = "e2b" }

abbrev booted : SbxRes
booted = record {
  exit = 0;
  stdout = "done";
  stderr = "";
  files_out =
      record { path = "b.txt"; sha256 = "hb"; inline = some "text"; uri = none }
      ∷ record { path = "a.txt"; sha256 = "ha"; inline = none; uri = none }
      ∷ [];
  metrics = record { wall_ms = 1; cpu_ms = 1; mem_peak_mb = 1 };
  sandbox_ref = "s";
  err_code = SbxErrCode.none_code;
  task_key = "t";
  artifact_index_ref = none;
  raw =
      some (
        field "bootMs" (num (pos 7)) (field "template" (obj (field "source" (str "hot") end)) end));
}

abbrev saved : List ArtifactRow → Result String × List ArtifactRow
saved rows = saving plain_text mocked "r1" "ExecuteST" booted 1 (λ index. ok tt) 5 rows

-- The index, the two logs, the two files, the raw part, the metrics and the boot.
eight_rows : length (saved []).1 ≡ 8
unfolding save_artifacts insert_entries insert_entry insert_artifact find_artifact do_each numbered
    entries boot_diag lift pure ◌>>=◌ ◌>>◌
eight_rows = refl
