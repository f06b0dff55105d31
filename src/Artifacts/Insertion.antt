-- ===== src/Artifacts/Insertion.antt =====
-- One artifact per key: insertArtifact of src/db/artifactRepo.ts.
use sisu_kodo.Prelude.{
  ℕ, String, Bool, true, false, not, ◌&&◌, ◌||◌, Option, none, some, List, ◌∷◌, ◌===◌, eq_iff, ◌==◌,
  find, ◌<>◌, decimal, if◌then◌else◌, ◌≡◌, ◌⊎◌, ◌↔◌, sym, refl, ap, ◌∙◌, arith, Bool-cases, inl,
  inr,
}
use sisu_kodo.Prelude.Json.{Json}
use sisu_kodo.Failure.{Error, plain, Result, ok, err}

pub record ArtifactRef : Type 0 where
  pub kind : String
  pub uri : Option String
  pub inline : Option Json
  pub sha256 : String

-- The columns that no two artifacts share.
pub record ArtifactKey : Type 0 where
  pub run_id : String
  pub step_id : String
  pub task_key : String
  pub idx : ℕ
  pub attempt : ℕ

pub record ArtifactRow : Type 0 where
  pub key : ArtifactKey
  pub artifact : ArtifactRef
  pub created_at : ℕ

abbrev pub same_key : ArtifactKey → ArtifactKey → Bool
same_key k l =
    k.run_id === l.run_id
    && k.step_id === l.step_id
    && k.task_key === l.task_key
    && k.idx == l.idx
    && k.attempt == l.attempt

unfoldable pub find_artifact : List ArtifactRow → ArtifactKey → Option ArtifactRow
find_artifact rows key = find (λ (r : ArtifactRow). same_key r.key key) rows

abbrev pub divergence_error : ArtifactKey → Error
divergence_error key = plain (
    "Artifact divergence in "
    <> key.run_id
    <> ":"
    <> key.step_id
    <> ":"
    <> key.task_key
    <> ":"
    <> decimal key.idx
    <> ":"
    <> decimal key.attempt
    <> ". SHA or URI mismatch.")

-- `existing.uri === uri`: a missing address is null in the table and undefined in a request.
abbrev pub same_uri : Option String → Option String → Bool
same_uri (some a) (some b) = a === b
same_uri (some a) none = false
same_uri none b = false

abbrev pub diverges : ArtifactRef → ArtifactRef → Bool
diverges existing incoming =
    not (existing.sha256 === incoming.sha256) || not (same_uri existing.uri incoming.uri)

abbrev pub insert_unless :
    Option ArtifactRow
    → ℕ
    → List ArtifactRow
    → ArtifactKey
    → ArtifactRef
    → Result ArtifactRow × List ArtifactRow
insert_unless none now rows key artifact =
    let row : ArtifactRow = record { key = key; artifact = artifact; created_at = now } in
    (ok row, row ∷ rows)
insert_unless (some existing) now rows key artifact =
    if diverges existing.artifact artifact
    then (err (divergence_error key), rows)
    else (ok (record existing { key = key }), rows)

unfoldable pub insert_artifact :
    ℕ → List ArtifactRow → ArtifactKey → ArtifactRef → Result ArtifactRow × List ArtifactRow
unfolding find_artifact
insert_artifact now rows key artifact = insert_unless (find_artifact rows key) now rows key artifact

pub same_key_refl : (k : ArtifactKey) → same_key k k ≡ true
same_key_refl k =
    ground
      (arith, eq_iff k.run_id k.run_id, eq_iff k.step_id k.step_id, eq_iff k.task_key k.task_key)

insert_artifact-outcome :
    (now later : ℕ) (rows : List ArtifactRow) (key : ArtifactKey) (first second : ArtifactRef)
    {row : ArtifactRow}
    → (insert_artifact now rows key first).0 ≡ ok row
    → let rows' = (insert_artifact now rows key first).1 in
      insert_artifact later rows' key second ≡ (
        if diverges row.artifact second
        then (err (divergence_error key), rows')
        else (ok row, rows'))
unfolding insert_artifact
insert_artifact-outcome now later rows key first second {row} h = go (find_artifact rows key) refl h
  where
    again : (out : ArtifactRow) (rs : List ArtifactRow) → Result ArtifactRow × List ArtifactRow
    again out rs =
        if diverges out.artifact second then (err (divergence_error key), rs) else (ok out, rs)

    value : (out : ArtifactRow) → ok out ≡ ok row → out ≡ row
    value out v = cc

    kept :
        (existing : ArtifactRow)
        → diverges existing.artifact first ≡ false
        → (insert_unless (some existing) now rows key first).0 ≡ ok row
        → record existing { key = key } ≡ row
    kept existing agrees k = value (record existing { key = key }) (rw agrees at k)

    go :
        (o : Option ArtifactRow)
        → find_artifact rows key ≡ o
        → (insert_unless o now rows key first).0 ≡ ok row
        → insert_artifact later (insert_unless o now rows key first).1 key second
          ≡ again row (insert_unless o now rows key first).1
    go none e k =
        ap (λ found. insert_unless found later (new ∷ rows) key second) find_new
        ∙ ap (λ out. again out (new ∷ rows)) (ground (arith, k))
      where
        new : ArtifactRow
        new = record { key = key; artifact = first; created_at = now }

        find_new : find_artifact (new ∷ rows) key ≡ some new
        find_new = rw (same_key_refl key) refl
    go (some existing) e k = elim (Bool-cases (diverges existing.artifact first)) [
      | inl differs ↦ absurd (ground (arith, k, differs))
      | inr agrees ↦ rw agrees (
          ap (λ found. insert_unless found later rows key second) e
          ∙ ap (λ out. again out rows) (kept existing agrees k))
    ]

-- The same digest, and the same address, which both give.
abbrev pub SameContent : ArtifactRef → ArtifactRef → Type 0
SameContent a b = (a.sha256 ≡ b.sha256) × (uri : String) × (a.uri ≡ some uri) × (b.uri ≡ some uri)

diverges_iff : (a b : ArtifactRef) → (diverges a b ≡ false) ↔ SameContent a b
diverges_iff a b = (to a.uri b.uri refl refl, λ (h, u, x, y). back h u x y)
  where
    to : (x y : Option String) → a.uri ≡ x → b.uri ≡ y → diverges a b ≡ false → SameContent a b
    to (some u) (some v) e f h = (
      ground (arith, h, e, f, eq_iff a.sha256 b.sha256),
      u,
      e,
      ground (arith, h, e, f, eq_iff u v),
    )
    to (some u) none e f h = absurd (ground (arith, h, e, f))
    to none y e f h = absurd (ground (arith, h, e, f))

    back :
        a.sha256 ≡ b.sha256 → (u : String) → a.uri ≡ some u → b.uri ≡ some u → diverges a b ≡ false
    back h u x y = ground (arith, h, x, y, eq_iff a.sha256 b.sha256, eq_iff u u)

module _ (now later : ℕ) (rows : List ArtifactRow) (key : ArtifactKey) (first second : ArtifactRef)
    (row : ArtifactRow) where
  -- What an accepted artifact leaves on record agrees with it.
  stored_content :
      (insert_artifact now rows key first).0 ≡ ok row
      → (row.artifact ≡ first) ⊎ SameContent row.artifact first
  unfolding insert_artifact
  stored_content h = go (find_artifact rows key) h
    where
      agreeing :
          (existing : ArtifactRow)
          → diverges existing.artifact first ≡ false
          → record existing { key = key } ≡ row
          → SameContent row.artifact first
      agreeing existing agrees same =
          rw (ap ArtifactRow.artifact same) at ((diverges_iff existing.artifact first).0 agrees)

      go :
          (o : Option ArtifactRow)
          → (insert_unless o now rows key first).0 ≡ ok row
          → (row.artifact ≡ first) ⊎ SameContent row.artifact first
      go none k = inl (ground (arith, k))
      go (some existing) k = elim (Bool-cases (diverges existing.artifact first)) [
        | inl differs ↦ absurd (ground (arith, k, differs))
        | inr agrees ↦ inr (agreeing existing agrees (value _ (rw agrees at k)))
      ]
        where
          value : (out : ArtifactRow) → ok out ≡ ok row → out ≡ row
          value out v = cc

  same_as_first :
      (row.artifact ≡ first) ⊎ SameContent row.artifact first
      → SameContent row.artifact second ↔ SameContent first second
  same_as_first (inl e) = rw e (λ c. c, λ c. c)
  same_as_first (inr (h, u, a, b)) = (
    λ (k, v, c, d). (sym h ∙ k, v, b ∙ sym a ∙ c, d),
    λ (k, v, c, d). (h ∙ k, v, a ∙ sym b ∙ c, d),
  )

  abbrev pub again : Result ArtifactRow × List ArtifactRow
  again = insert_artifact later (insert_artifact now rows key first).1 key second

  -- A key is written once: after an artifact was accepted, an artifact for the same key is answered
  -- with the first row exactly when both give an address and their digests and addresses are equal;
  -- otherwise it is refused as divergent; and no row is written or changed.
  pub insert_artifact-again :
      (insert_artifact now rows key first).0 ≡ ok row
      → ((again.0 ≡ ok row) ↔ SameContent first second)
        × ((again.0 ≡ ok row) ⊎ (again.0 ≡ err (divergence_error key)))
        × (again.1 ≡ (insert_artifact now rows key first).1)
  insert_artifact-again h =
      go (diverges row.artifact second) refl
        (insert_artifact-outcome now later rows key first second h)
    where
      rows' : List ArtifactRow
      rows' = (insert_artifact now rows key first).1

      equal : SameContent row.artifact second ↔ SameContent first second
      equal = same_as_first (stored_content h)

      go :
          (differs : Bool)
          → diverges row.artifact second ≡ differs
          → again ≡ (if differs then (err (divergence_error key), rows') else (ok row, rows'))
          → ((again.0 ≡ ok row) ↔ SameContent first second)
            × ((again.0 ≡ ok row) ⊎ (again.0 ≡ err (divergence_error key)))
            × (again.1 ≡ rows')
      go true d e = (
        (
          λ k. absurd (cc (ap (λ x. x.0) e, k)),
          λ c. absurd (cc (d, (diverges_iff row.artifact second).1 (equal.1 c))),
        ),
        inr (ap (λ x. x.0) e),
        ap (λ x. x.1) e,
      )
      go false d e = (
        (λ k. equal.0 ((diverges_iff row.artifact second).0 d), λ c. ap (λ x. x.0) e),
        inl (ap (λ x. x.0) e),
        ap (λ x. x.1) e,
      )
