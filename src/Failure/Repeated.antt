-- ===== src/Failure/Repeated.antt =====
-- A loop of effects over a list, `for (const x of xs) await f(x)`, and when to run it again does nothing.
use sisu_kodo.Prelude.{List, [], ◌∷◌, ◌≡◌, refl, All}
use sisu_kodo.Failure.{Result, ok, err}
use sisu_kodo.Failure.Async.{Async, continue, pure, ◌>>◌, ◌>>=◌}

unfoldable pub do_each : {W A : Type 0} → (A → Async W (Unit {0})) → List A → Async W (Unit {0})
do_each f [] = pure tt
do_each f (x ∷ xs) = f x >> do_each f xs

-- An effect `f` that puts its argument on record, as `R` says, and takes nothing off the record.
module _ {W A : Type 0} (f : A → Async W (Unit {0})) (R : W → A → Type 0)
    (records : (x : A) (w : W) → (f x w).0 ≡ ok tt → R (f x w).1 x)
    (keeps : (x y : A) (w : W) → R w y → R (f x w).1 y) where
  do_each-keeps : (xs : List A) (y : A) (w : W) → R w y → R (do_each f xs w).1 y
  unfolding do_each ◌>>◌ ◌>>=◌ pure
  do_each-keeps [] y w h = h
  do_each-keeps (x ∷ xs) y w h = go (do_each-keeps xs y) (f x w).1 (f x w).0 (keeps x y w h)
    where
      go :
          ((after : W) → R after y → R (do_each f xs after).1 y)
          → (after : W) (r : Result (Unit {0})) → R after y
          → R (continue r (λ _. do_each f xs) after).1 y
      go ih after (ok _) k = ih after k
      go ih after (err e) k = k

  pub do_each-All :
      (xs : List A) (w : W) → (do_each f xs w).0 ≡ ok tt → All (R (do_each f xs w).1) xs
  unfolding do_each ◌>>◌ ◌>>=◌ pure
  do_each-All [] w h = tt
  do_each-All (x ∷ xs) w h = go (do_each-All xs after) (f x w).0 refl h
    where
      after : W
      after = (f x w).1

      rest : Result (Unit {0}) → Result (Unit {0}) × W
      rest r = continue r (λ _. do_each f xs) after

      go :
          ((do_each f xs after).0 ≡ ok tt → All (R (do_each f xs after).1) xs)
          → (r : Result (Unit {0})) → (f x w).0 ≡ r
          → (rest r).0 ≡ ok tt
          → R (rest r).1 x × All (R (rest r).1) xs
      go ih (ok _) e k = (do_each-keeps xs x after (records x w e), ih k)
      go ih (err _) e k = cc

-- What is on record is left alone.
module _ {W A : Type 0} (f : A → Async W (Unit {0})) (R : W → A → Type 0)
    (again : (x : A) (w : W) → R w x → f x w ≡ (ok tt, w)) where
  pub do_each-done : (xs : List A) (w : W) → All (R w) xs → do_each f xs w ≡ (ok tt, w)
  unfolding do_each ◌>>◌ ◌>>=◌ pure
  do_each-done [] w h = refl
  do_each-done (x ∷ xs) w (h, hs) = rw (again x w h) (do_each-done xs w hs)

-- An effect that leaves the world alone where `R` holds, whether it returns or throws.
module _ {W A : Type 0} (f : A → Async W (Unit {0})) (R : W → A → Type 0)
    (still : (x : A) (w : W) → R w x → (f x w).1 ≡ w) where
  pub do_each-still : (xs : List A) (w : W) → All (R w) xs → (do_each f xs w).1 ≡ w
  unfolding do_each ◌>>◌ ◌>>=◌ pure
  do_each-still [] w h = refl
  do_each-still (x ∷ xs) w (h, hs) = go (f x w).0 (f x w).1 (still x w h) (do_each-still xs w hs)
    where
      go :
          (r : Result (Unit {0})) (after : W)
          → after ≡ w
          → (do_each f xs w).1 ≡ w
          → (continue r (λ _. do_each f xs) after).1 ≡ w
      go (ok _) after e k = rw e k
      go (err _) after e k = e
