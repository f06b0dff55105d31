-- ===== src/Evaluation/Distance.antt =====
-- The bounded edit distance of two texts: editDistance of src/eval/runner.ts. A text is the list of its
-- code units; the arrays prev and curr are lists, and curr is filled from the left.
pub mod Edits
pub mod Rows
pub mod Least
use sisu_kodo.Prelude.{
  ℕ, suc, ◌+◌, ◌-◌, Bool, true, false, ◌&&◌, ◌||◌, List, [], ◌∷◌, Text, min, ltb, ◌==◌, same,
  length, if◌then◌else◌,
}

-- The cells of a row after the first: `left` is curr[j - 1], and the row above starts with prev[j - 1].
unfoldable pub fill : ℕ → ℕ → List ℕ → Text → List ℕ
fill a left [] bs = []
fill a left (diag ∷ ps) [] = []
fill a left (diag ∷ []) (b ∷ bs) = []
fill a left (diag ∷ p ∷ ps) (b ∷ bs) =
    let cost : ℕ = if a == b then 0 else 1 in
    let cell = min (min (p + 1) (left + 1)) (diag + cost) in cell ∷ fill a cell (p ∷ ps) bs

abbrev pub next_row : ℕ → ℕ → List ℕ → Text → List ℕ
next_row i a prev rhs = i ∷ fill a i prev rhs

-- The least cell of a row, from its first one on.
abbrev pub min_from : ℕ → List ℕ → ℕ
min_from m [] = m
min_from m (c ∷ cs) = min_from (min m c) cs

abbrev pub min_in_row : List ℕ → ℕ
min_in_row [] = 0
min_in_row (c ∷ cs) = min_from c cs

-- `prev[rhs.length]`
abbrev pub last_cell : List ℕ → ℕ
last_cell [] = 0
last_cell (c ∷ []) = c
last_cell (c ∷ d ∷ cs) = last_cell (d ∷ cs)

-- The rounds from the i-th on.
unfoldable pub rows : ℕ → Text → ℕ → List ℕ → Text → ℕ
rows max rhs i prev [] = last_cell prev
rows max rhs i prev (a ∷ as_) =
    let rest = rows max rhs (suc i) (next_row i a prev rhs) as_ in
    if ltb max (min_in_row (next_row i a prev rhs)) then suc max else rest

-- Array.from({ length: n + 1 }, (_, idx) => idx), from `i` on
unfoldable pub first_row : ℕ → Text → List ℕ
first_row i [] = i ∷ []
first_row i (b ∷ bs) = i ∷ first_row (suc i) bs

abbrev pub apart : ℕ → ℕ → ℕ
apart a b = (a - b) + (b - a)

unfoldable pub edit_distance : Text → Text → ℕ → ℕ
edit_distance lhs rhs max =
    if same lhs rhs
    then 0
    else if ltb max (apart (length lhs) (length rhs))
    then suc max
    else rows max rhs 1 (first_row 0 rhs) lhs
