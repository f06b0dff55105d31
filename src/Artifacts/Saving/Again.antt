-- ===== src/Artifacts/Saving/Again.antt =====
-- Saving the artifacts of a result a second time: src/workflow/steps/save-artifacts.step.ts.
use sisu_kodo.Prelude.{ℕ, String, false, some, List, ◌∷◌, ◌≡◌}
use sisu_kodo.Prelude.Json.{Json}
use sisu_kodo.Failure.{Result}
use sisu_kodo.Failure.Async.{Async}
use sisu_kodo.Hash.{Platform}
use sisu_kodo.Sandbox.{SbxRes}
use sisu_kodo.Artifacts.Insertion.{ArtifactKey, ArtifactRef, ArtifactRow, find_artifact, diverges}
use sisu_kodo.Artifacts.Saving.{
  ArtifactEntry, SandboxConfig, ref_of, key_at, index_entry, ordered_entries, numbered, named,
  insert_entry, save_artifacts,
}

-- The artifact's key is taken, with its digest and address.
abbrev pub Recorded : List ArtifactRow → ArtifactKey → ArtifactRef → Type 0
Recorded rows key artifact =
    (row : ArtifactRow) × (find_artifact rows key ≡ some row)
    × (diverges row.artifact artifact ≡ false)

module _ (p : Platform) (cfg : SandboxConfig) (run_id step_id : String) (result : SbxRes)
    (attempt : ℕ) where
  abbrev pub Stored : List ArtifactRow → ℕ × ArtifactEntry → Type 0
  Stored rows (idx, e) = Recorded rows (key_at p cfg run_id step_id result attempt idx) (ref_of e)

  abbrev storing : ℕ → ℕ × ArtifactEntry → Async (List ArtifactRow) (Unit {0})
  storing now = insert_entry p cfg run_id step_id result attempt now

  -- What a save writes: the index, and the entries in order.
  abbrev pub written : List (ℕ × ArtifactEntry)
  written =
      (0, index_entry p cfg run_id step_id result attempt)
      ∷ numbered 1 (ordered_entries p cfg run_id step_id result attempt)

  module _ (assert_artifact_index : Json → Result (Unit {0})) where
    abbrev pub saving : ℕ → Async (List ArtifactRow) String
    saving now = save_artifacts p cfg run_id step_id result attempt assert_artifact_index now

    abbrev pub uri : String
    uri = named p cfg run_id step_id result attempt "index.json"
