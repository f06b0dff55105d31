-- ===== src/Evaluation/Distance/Edits.antt =====
-- Turning one text into another by insertions, deletions and substitutions: what editDistance of
-- src/eval/runner.ts counts.
use sisu_kodo.Prelude.{
  ℕ, suc, ◌+◌, ◌≤◌, ◌≡◌, refl, arith, true, [], ◌∷◌, ◌++◌, ap, reverse, reverse-cons, append-nil,
  Text, min, ltb, ◌==◌, length, if◌then◌else◌, inl, inr, Bool-cases, same, same_iff,
}
use mathlib.Core.List.{reverse-reverse}
use sisu_kodo.Evaluation.Distance.{apart}

abbrev pub cost : ℕ → ℕ → ℕ
cost a b = if a == b then 0 else 1

-- `Edits n s t`: n edits turn s into t.
pub data Edits : ℕ → Text → Text → Type 0 where
  done : {n : ℕ} → n ≡ 0 → Edits n [] []
  keep : {n m : ℕ} {s t : Text} (a b : ℕ) → n ≡ m + cost a b → Edits m s t → Edits n (a ∷ s) (b ∷ t)
  delete : {n m : ℕ} {s t : Text} (a : ℕ) → n ≡ suc m → Edits m s t → Edits n (a ∷ s) t
  insert : {n m : ℕ} {s t : Text} (b : ℕ) → n ≡ suc m → Edits m s t → Edits n s (b ∷ t)

-- The least number of edits, by recursion on both texts.
unfoldable pub lev : Text → Text → ℕ
lev [] [] = 0
lev [] (b ∷ t) = suc (lev [] t)
lev (a ∷ s) [] = suc (lev s [])
lev (a ∷ s) (b ∷ t) = min (min (lev s (b ∷ t) + 1) (lev (a ∷ s) t + 1)) (lev s t + cost a b)

lev-insert : (s t : Text) (b : ℕ) → lev s (b ∷ t) ≤ suc (lev s t)
unfolding lev
lev-insert [] t b = omega arith
lev-insert (a ∷ s) t b = omega arith

lev-delete : (s t : Text) (a : ℕ) → lev (a ∷ s) t ≤ suc (lev s t)
unfolding lev
lev-delete s [] a = omega arith
lev-delete s (b ∷ t) a = omega arith

lev-keep : (s t : Text) (a b : ℕ) → lev (a ∷ s) (b ∷ t) ≤ lev s t + cost a b
unfolding lev
lev-keep s t a b = omega arith

pub lev-le : {n : ℕ} {s t : Text} → Edits n s t → lev s t ≤ n
lev-le (done e) = unfold lev in (omega arith)
lev-le (keep {n} {m} {s} {t} a b e d) = omega (arith, lev-le d, lev-keep s t a b, e)
lev-le (delete {n} {m} {s} {t} a e d) = omega (arith, lev-le d, lev-delete s t a)
lev-le (insert {n} {m} {s} {t} b e d) = omega (arith, lev-le d, lev-insert s t b)

min_case : (P : ℕ → Type 0) (x y : ℕ) → P x → P y → P (min x y)
min_case P x y p q = elim (Bool-cases (ltb x y)) [
  | inl below ↦ let e : x ≡ min x y = ground (arith, below) in rw (← e) p
  | inr above ↦ let e : y ≡ min x y = ground (arith, above) in rw (← e) q
]

pub lev-Edits : (s t : Text) → Edits (lev s t) s t
unfolding lev
lev-Edits [] [] = done refl
lev-Edits [] (b ∷ t) = insert b refl (lev-Edits [] t)
lev-Edits (a ∷ s) [] = delete a refl (lev-Edits s [])
lev-Edits (a ∷ s) (b ∷ t) =
    min_case (λ n. Edits n (a ∷ s) (b ∷ t)) _ _
      (min_case (λ n. Edits n (a ∷ s) (b ∷ t)) _ _ (delete a (omega arith) (lev-Edits s (b ∷ t)))
        (insert b (omega arith) (lev-Edits (a ∷ s) t)))
      (keep a b refl (lev-Edits s t))

Edits-append :
    {n m k : ℕ} {s t u v : Text} → k ≡ n + m → Edits n s t → Edits m u v → Edits k (s ++ u) (t ++ v)
Edits-append {n} {m} {k} e (done z) f = let h : k ≡ m = omega arith in rw h f
Edits-append e (keep a b z d) f = keep a b (omega arith) (Edits-append refl d f)
Edits-append e (delete a z d) f = delete a (omega arith) (Edits-append refl d f)
Edits-append e (insert b z d) f = insert b (omega arith) (Edits-append refl d f)

pub Edits-reverse : {n : ℕ} {s t : Text} → Edits n s t → Edits n (reverse s) (reverse t)
Edits-reverse (done z) = done z
Edits-reverse (keep {n} {m} {s} {t} a b z d) =
    rw (reverse-cons a s, reverse-cons b t)
      (Edits-append z (Edits-reverse d) (keep a b (omega arith) (done refl)))
Edits-reverse (delete {n} {m} {s} {t} a z d) =
    rw (reverse-cons a s, ← (append-nil (reverse t)))
      (Edits-append {m = 1} (omega arith) (Edits-reverse d) (delete a refl (done refl)))
Edits-reverse (insert {n} {m} {s} {t} b z d) =
    rw (reverse-cons b t, ← (append-nil (reverse s)))
      (Edits-append {m = 1} (omega arith) (Edits-reverse d) (insert b refl (done refl)))

-- Reading both texts backwards needs as many edits.
pub lev-reverse : (s t : Text) → lev (reverse s) (reverse t) ≡ lev s t
lev-reverse s t = omega (
  arith,
  lev-le (Edits-reverse (lev-Edits s t)),
  ap (λ u. lev u (reverse (reverse t))) (reverse-reverse s),
  ap (lev s) (reverse-reverse t),
  lev-le (Edits-reverse (lev-Edits (reverse s) (reverse t))),
)

-- Texts of other lengths need at least as many edits as the lengths differ by.
pub apart-lev : {n : ℕ} {s t : Text} → Edits n s t → apart (length s) (length t) ≤ n
apart-lev (done z) = omega arith
apart-lev (keep a b z d) = omega (arith, apart-lev d)
apart-lev (delete a z d) = omega (arith, apart-lev d)
apart-lev (insert b z d) = omega (arith, apart-lev d)

lev_self : (s : Text) → lev s s ≡ 0
unfolding lev
lev_self [] = refl
lev_self (a ∷ s) = ground (arith, lev_self s)

pub lev_of_same : (s t : Text) → same s t ≡ true → lev s t ≡ 0
lev_of_same s t h = rw ((same_iff s t).0 h) (lev_self t)
