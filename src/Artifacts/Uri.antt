-- ===== src/Artifacts/Uri.antt =====
-- The addresses of artifacts, as lists of code points: src/lib/artifact-uri.ts. The messages of the two
-- errors leave the address out.
use sisu_kodo.Prelude.{
  ℕ, Bool, false, ◌&&◌, List, [], ◌∷◌, ◌++◌, Text, codes, ◌==◌, same, starts_with, any,
  if◌then◌else◌, ◌≡◌, refl, sym, ap, ◌∙◌, arith, Bool-cases, inl, inr,
}
use sisu_kodo.Failure.{plain, Result, ok, err}

pub record ArtifactUriParts : Type 0 where
  pub run_id : Text
  pub step_id : Text
  pub task_key : Text
  pub name : Text

-- "artifact://"
abbrev pub artifact_prefix : Text
artifact_prefix = codes "artifact://"

unfoldable pub is_artifact_uri : Text → Bool
is_artifact_uri uri = starts_with uri artifact_prefix

-- A first part before others.
abbrev cons_to : ℕ → List Text → List Text
cons_to c [] = (c ∷ []) ∷ []
cons_to c (part ∷ parts) = (c ∷ part) ∷ parts

-- `path.split("/")`
abbrev pub split : Text → List Text
split [] = [] ∷ []
split (c ∷ s) = let rest = split s in if c == b'/' then [] ∷ rest else cons_to c rest

-- `parts.join("/")`
abbrev pub join_slash : List Text → Text
join_slash [] = []
join_slash (part ∷ []) = part
join_slash (part ∷ next ∷ parts) = part ++ b'/' ∷ join_slash (next ∷ parts)

-- The characters after the prefix.
abbrev pub after_prefix : Text → Text
after_prefix (_ ∷ _ ∷ _ ∷ _ ∷ _ ∷ _ ∷ _ ∷ _ ∷ _ ∷ _ ∷ _ ∷ path) = path
after_prefix _ = []

abbrev pub malformed : {A : Type 0} → Result A
malformed = err (plain "Malformed artifact URI")

-- run/<run>/step/<step>/task/<task>/<name>
unfoldable pub read_parts : List Text → Result ArtifactUriParts
read_parts (p0 ∷ p1 ∷ p2 ∷ p3 ∷ p4 ∷ p5 ∷ p6 ∷ rest) =
    if same p0 (codes "run") && same p2 (codes "step") && same p4 (codes "task")
    then ok (record { run_id = p1; step_id = p3; task_key = p5; name = join_slash (p6 ∷ rest) })
    else malformed
read_parts _ = malformed

unfoldable pub parse_artifact_uri : Text → Result ArtifactUriParts
unfolding is_artifact_uri read_parts
parse_artifact_uri uri =
    if is_artifact_uri uri
    then read_parts (split (after_prefix uri))
    else err (plain "Invalid artifact URI")

-- The path after the prefix, from each of its parts on.
abbrev pub task_path : ArtifactUriParts → Text
task_path parts = codes "task" ++ (b'/' ∷ (parts.task_key ++ (b'/' ∷ parts.name)))

abbrev pub step_path : ArtifactUriParts → Text
step_path parts = codes "step" ++ (b'/' ∷ (parts.step_id ++ (b'/' ∷ task_path parts)))

abbrev pub path_of : ArtifactUriParts → Text
path_of parts = codes "run" ++ (b'/' ∷ (parts.run_id ++ (b'/' ∷ step_path parts)))

unfoldable pub build_artifact_uri : ArtifactUriParts → Text
build_artifact_uri parts = artifact_prefix ++ path_of parts

abbrev pub has_slash : Text → Bool
has_slash s = any (λ c. c == b'/') s

split-slash : (s t : Text) → has_slash s ≡ false → split (s ++ b'/' ∷ t) ≡ s ∷ split t
split-slash [] t h = refl
split-slash (c ∷ s) t h = ground (arith, h, split-slash s t)

split_more : (s : Text) → (p : Text) × (ps : List Text) × (split s ≡ p ∷ ps)
split_more [] = ([], [], refl)
split_more (c ∷ s) =
    let (p, ps, e) = split_more s in
    elim (Bool-cases (c == b'/')) [
      | inl slash ↦ ([], split s, rw slash refl)
      | inr other ↦ (c ∷ p, ps, rw (other, e) refl)
    ]

join_slash-split : (s : Text) → join_slash (split s) ≡ s
join_slash-split [] = refl
join_slash-split (c ∷ s) =
    let (p, ps, e) = split_more s in
    elim (Bool-cases (c == b'/')) [
      | inl slash ↦
          rw (slash, e) (ground (arith, slash, ap join_slash (sym e) ∙ join_slash-split s))
      | inr other ↦ rw (other, e) (joined p ps (ap join_slash (sym e) ∙ join_slash-split s))
    ]
  where
    joined :
        (p : Text) (ps : List Text) → join_slash (p ∷ ps) ≡ s → join_slash ((c ∷ p) ∷ ps) ≡ c ∷ s
    joined p [] h = ap (◌∷◌ c) h
    joined p (q ∷ ps) h = ap (◌∷◌ c) h

-- An address that is built is parsed into its parts, when run, step and task hold no slash.
pub parse-build_artifact_uri :
    (parts : ArtifactUriParts)
    → has_slash parts.run_id ≡ false
    → has_slash parts.step_id ≡ false
    → has_slash parts.task_key ≡ false
    → parse_artifact_uri (build_artifact_uri parts) ≡ ok parts
unfolding parse_artifact_uri build_artifact_uri
parse-build_artifact_uri parts r s t =
    ap read_parts splits
    ∙ named (split parts.name) (split_more parts.name) (join_slash-split parts.name)
  where
    task : split (task_path parts) ≡ codes "task" ∷ parts.task_key ∷ split parts.name
    task = ap (λ ps. codes "task" ∷ ps) (split-slash parts.task_key parts.name t)

    step :
        split (step_path parts)
        ≡ codes "step" ∷ parts.step_id ∷ codes "task" ∷ parts.task_key ∷ split parts.name
    step =
        ap (λ ps. codes "step" ∷ ps) (split-slash parts.step_id (task_path parts) s)
        ∙ ap (λ ps. codes "step" ∷ parts.step_id ∷ ps) task

    splits :
        split (path_of parts)
        ≡ codes "run"
          ∷ parts.run_id
          ∷ codes "step"
          ∷ parts.step_id
          ∷ codes "task"
          ∷ parts.task_key
          ∷ split parts.name
    splits =
        ap (λ ps. codes "run" ∷ ps) (split-slash parts.run_id (step_path parts) r)
        ∙ ap (λ ps. codes "run" ∷ parts.run_id ∷ ps) step

    named :
        (ps : List Text)
        → (p : Text) × (rest : List Text) × (ps ≡ p ∷ rest)
        → join_slash ps ≡ parts.name
        → read_parts (
            codes "run"
            ∷ parts.run_id
            ∷ codes "step"
            ∷ parts.step_id
            ∷ codes "task"
            ∷ parts.task_key
            ∷ ps)
          ≡ ok parts
    named [] (p, rest, e) h = cc
    named (p ∷ rest) m h = ap (λ n. ok (record parts { name = n })) h
