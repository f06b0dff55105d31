-- ===== src/Evaluation/Distance/Rows.antt =====
-- What the rows of editDistance of src/eval/runner.ts hold: the distances of the prefixes read so far.
-- A prefix is kept backwards, so that its last letter comes first.
use sisu_kodo.Prelude.{
  ℕ, suc, ◌≤◌, ◌<◌, ◌≡◌, refl, ap, arith, List, [], ◌∷◌, Text, min, ltb, length, if◌then◌else◌, inl,
  inr, Bool-cases, All, ◌⊎◌,
}
use mathlib.Core.List.{reverse_aux}
use sisu_kodo.Evaluation.Distance.{fill, next_row, min_from, min_in_row, last_cell, rows, first_row}
use sisu_kodo.Evaluation.Distance.Edits.{lev}

-- The distances of `us` and the prefixes that grow from `vs` by the letters of the text.
abbrev pub cells : Text → Text → Text → List ℕ
cells us vs [] = lev us vs ∷ []
cells us vs (b ∷ bs) = lev us vs ∷ cells us (b ∷ vs) bs

pub fill-cells :
    (a : ℕ) (us vs bs : Text)
    → lev (a ∷ us) vs ∷ fill a (lev (a ∷ us) vs) (cells us vs bs) bs ≡ cells (a ∷ us) vs bs
unfolding fill lev
fill-cells a us vs [] = refl
fill-cells a us vs (b ∷ []) = refl
fill-cells a us vs (b ∷ c ∷ bs) =
    ap (λ row. lev (a ∷ us) vs ∷ row) (fill-cells a us (b ∷ vs) (c ∷ bs))

lev-nil : (us : Text) → lev us [] ≡ length us
unfolding lev
lev-nil [] = refl
lev-nil (a ∷ us) = omega (arith, lev-nil us)

lev_nil : (vs : Text) → lev [] vs ≡ length vs
unfolding lev
lev_nil [] = refl
lev_nil (b ∷ vs) = omega (arith, lev_nil vs)

pub next_row-cells :
    (i a : ℕ) (us rhs : Text)
    → i ≡ suc (length us)
    → next_row i a (cells us [] rhs) rhs ≡ cells (a ∷ us) [] rhs
next_row-cells i a us rhs h =
    let first : i ≡ lev (a ∷ us) [] = omega (arith, lev-nil (a ∷ us)) in
    rw first (fill-cells a us [] rhs)

pub first_row-cells : (i : ℕ) (vs bs : Text) → i ≡ length vs → first_row i bs ≡ cells [] vs bs
unfolding first_row
first_row-cells i vs [] h = let e : i ≡ lev [] vs = omega (arith, lev_nil vs) in rw e refl
first_row-cells i vs (b ∷ bs) h =
    let e : i ≡ lev [] vs = omega (arith, lev_nil vs) in
    rw (first_row-cells (suc i) (b ∷ vs) bs (omega arith)) (ap (λ n. n ∷ cells [] (b ∷ vs) bs) e)

pub last_cell-cells : (us vs bs : Text) → last_cell (cells us vs bs) ≡ lev us (reverse_aux bs vs)
last_cell-cells us vs [] = refl
last_cell-cells us vs (b ∷ []) = refl
last_cell-cells us vs (b ∷ c ∷ bs) = last_cell-cells us (b ∷ vs) (c ∷ bs)

-- A row whose cells are all large.
abbrev pub AllFrom : ℕ → List ℕ → Type 0
AllFrom m row = All (λ c. m ≤ c) row

min_from-le : (m : ℕ) (row : List ℕ) (n : ℕ) → n ≤ min_from m row → (n ≤ m) × AllFrom n row
min_from-le m [] n h = (h, tt)
min_from-le m (c ∷ row) n h =
    let (below, later) = min_from-le (min m c) row n h in
    (omega (arith, below), (omega (arith, below), later))

pub min_in_row-le : (row : List ℕ) (n : ℕ) → n ≤ min_in_row row → AllFrom n row
min_in_row-le [] n h = tt
min_in_row-le (c ∷ row) n h = min_from-le c row n h

cells_head : (m : ℕ) (us vs bs : Text) → AllFrom m (cells us vs bs) → m ≤ lev us vs
cells_head m us vs [] h = h.0
cells_head m us vs (b ∷ bs) h = h.0

-- The cells of the next row are no smaller than the least of this one.
cells_up :
    (m a : ℕ) (us vs bs : Text)
    → m ≤ lev (a ∷ us) vs
    → AllFrom m (cells us vs bs)
    → AllFrom m (cells (a ∷ us) vs bs)
cells_up m a us vs [] h r = (h, tt)
cells_up m a us vs (b ∷ bs) h (first, r) =
    let above = cells_head m us (b ∷ vs) bs r in
    (h, cells_up m a us (b ∷ vs) bs (unfold lev in (omega (arith, h, first, above))) r)

pub cells_last :
    (m : ℕ) (us vs bs : Text) → AllFrom m (cells us vs bs) → m ≤ lev us (reverse_aux bs vs)
cells_last m us vs [] h = h.0
cells_last m us vs (b ∷ bs) h = cells_last m us (b ∷ vs) bs h.1

pub later_cells :
    (m : ℕ) (us as_ rhs : Text)
    → AllFrom m (cells us [] rhs)
    → m ≤ lev (reverse_aux as_ us) (reverse_aux rhs [])
later_cells m us [] rhs h = cells_last m us [] rhs h
later_cells m us (a ∷ as_) rhs h = later_cells m (a ∷ us) as_ rhs (
    cells_up m a us [] rhs (omega (arith, cells_head m us [] rhs h, lev-nil us, lev-nil (a ∷ us)))
      h)

-- The distance itself, or both it and the answer are too large.
abbrev pub Bounded : ℕ → ℕ → ℕ → Type 0
Bounded max r d = (r ≡ d) ⊎ ((max < r) × (max < d))

pub rows-Bounded :
    (max : ℕ) (rhs : Text) (i : ℕ) (us as_ : Text)
    → i ≡ suc (length us)
    → Bounded max
        (rows max rhs i (cells us [] rhs) as_)
        (lev (reverse_aux as_ us) (reverse_aux rhs []))
unfolding rows
rows-Bounded max rhs i us [] h = inl (last_cell-cells us [] rhs)
rows-Bounded max rhs i us (a ∷ as_) h =
    after (next_row i a (cells us [] rhs) rhs) (next_row-cells i a us rhs h)
      (rows-Bounded max rhs (suc i) (a ∷ us) as_ (omega arith))
  where
    distance : ℕ
    distance = lev (reverse_aux as_ (a ∷ us)) (reverse_aux rhs [])

    after :
        (row : List ℕ)
        → row ≡ cells (a ∷ us) [] rhs
        → Bounded max (rows max rhs (suc i) (cells (a ∷ us) [] rhs) as_) distance
        → Bounded max
            (if ltb max (min_in_row row) then suc max else rows max rhs (suc i) row as_)
            distance
    after row e ih = elim (Bool-cases (ltb max (min_in_row row))) [
      | inl stop ↦
          let large = min_in_row-le row (suc max) (ground (arith, stop)) in
          rw stop (inr (omega arith, later_cells (suc max) (a ∷ us) as_ rhs (rw (← e) large)))
      | inr on ↦ rw (on, e) ih
    ]
