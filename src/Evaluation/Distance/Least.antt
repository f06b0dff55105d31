-- ===== src/Evaluation/Distance/Least.antt =====
-- What the bounded distance says: editDistance of src/eval/runner.ts.
use sisu_kodo.Prelude.{ℕ, ◌≤◌, ◌↔◌, refl, arith, [], Text, ltb, same, length, inl, inr, Bool-cases}
use sisu_kodo.Evaluation.Distance.{edit_distance, apart}
use sisu_kodo.Evaluation.Distance.Edits.{
  Edits, lev, lev-le, lev-Edits, lev-reverse, apart-lev, lev_of_same,
}
use sisu_kodo.Evaluation.Distance.Rows.{Bounded, first_row-cells, rows-Bounded}

edit_distance-Bounded :
    (lhs rhs : Text) (max : ℕ) → Bounded max (edit_distance lhs rhs max) (lev lhs rhs)
unfolding edit_distance
edit_distance-Bounded lhs rhs max = elim (Bool-cases (same lhs rhs)) [
  | inl equal ↦ rw equal (inl (omega (arith, lev_of_same lhs rhs equal)))
  | inr other ↦ rw other (elim (Bool-cases (ltb max (apart (length lhs) (length rhs)))) [
    | inl far ↦
        let least = apart-lev (lev-Edits lhs rhs) in
        rw far (inr (omega arith, ground (arith, far, least)))
    | inr near ↦
        rw (near, first_row-cells 0 [] rhs refl, ← (lev-reverse lhs rhs))
          (rows-Bounded max rhs 1 [] lhs refl)
  ])
]

-- Within `n` edits one text turns into the other.
abbrev pub Within : ℕ → Text → Text → Type 0
Within n s t = (m : ℕ) × (m ≤ n) × Edits m s t

-- For every bound up to `max`, the bounded distance is within it exactly when as many insertions,
-- deletions and substitutions turn one text into the other.
pub edit_distance_iff :
    (lhs rhs : Text) (max n : ℕ) → n ≤ max → (edit_distance lhs rhs max ≤ n) ↔ Within n lhs rhs
edit_distance_iff lhs rhs max n h = (
  λ below. (lev lhs rhs, at_least below, lev-Edits lhs rhs),
  λ (m, within, edits). at_most (lev-le edits) within,
)
  where
    at_least : edit_distance lhs rhs max ≤ n → lev lhs rhs ≤ n
    at_least below = elim (edit_distance-Bounded lhs rhs max) [
      | inl e ↦ omega (arith, e)
      | inr (over, _) ↦ absurd (omega arith)
    ]

    at_most : {m : ℕ} → lev lhs rhs ≤ m → m ≤ n → edit_distance lhs rhs max ≤ n
    at_most least within = elim (edit_distance-Bounded lhs rhs max) [
      | inl e ↦ omega (arith, e)
      | inr (_, over) ↦ absurd (omega arith)
    ]
