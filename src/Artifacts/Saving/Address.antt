-- ===== src/Artifacts/Saving/Address.antt =====
-- The addresses on strings are those of src/lib/artifact-uri.ts on code points.
use Prim.Native.Char.{code}
use Prim.Native.String.append
use sisu_kodo.Prelude.{String, Text, codes, ◌∷◌, ◌++◌, ◌<>◌, ◌≡◌, ap, ◌∙◌}
use sisu_kodo.Artifacts.Uri.{build_artifact_uri}
use sisu_kodo.Artifacts.Saving.{uri_of}

codes-append : (s t : String) → codes (s <> t) ≡ codes s ++ codes t
codes-append String.[] t = ap codes (append.nil t)
codes-append (String.◌∷◌ c s) t =
    ap codes (append.cons c s t) ∙ ap (◌∷◌ (code c)) (codes-append s t)

-- A part between two others.
codes-between :
    (s t u : String) {v : Text} → codes u ≡ v → codes (s <> (t <> u)) ≡ codes s ++ (codes t ++ v)
codes-between s t u e =
    codes-append s (t <> u) ∙ ap (◌++◌ (codes s)) (codes-append t u ∙ ap (◌++◌ (codes t)) e)

pub codes-uri_of :
    (run_id step_id task_key name : String)
    → codes (uri_of run_id step_id task_key name)
      ≡ build_artifact_uri (record {
        run_id = codes run_id;
        step_id = codes step_id;
        task_key = codes task_key;
        name = codes name;
      })
unfolding build_artifact_uri
codes-uri_of run_id step_id task_key name =
    codes-between "artifact://run/" run_id _
      (codes-between "/step/" step_id _ (codes-between "/task/" task_key _ (codes-append "/" name)))
