-- ===== src/Failure/Async.antt =====
-- Asynchronous code over a world that it changes: `await` is a bind, `throw` an error that leaves
-- what was done before it done, and `try … catch` a handler that starts from the world at the throw.
use sisu_kodo.Prelude.{List, [], ◌∷◌, ◌≡◌, refl}
use sisu_kodo.Failure.{Error, Result, ok, err}

abbrev pub Async : Type 0 → Type 0 → Type 0
Async W A = W → Result A × W

module _ {W A : Type 0} where
  unfoldable pub pure : A → Async W A
  pure x w = (ok x, w)

  unfoldable pub throw : Error → Async W A
  throw e w = (err e, w)

  unfoldable pub lift : Result A → Async W A
  lift r w = (r, w)

  abbrev pub resume : Result A → (Error → Async W A) → Async W A
  resume (ok x) handler w = (ok x, w)
  resume (err e) handler w = handler e w

  -- `try { m } catch (error) { handler(error) }`
  unfoldable pub catch : Async W A → (Error → Async W A) → Async W A
  catch m handler w = resume (m w).0 handler (m w).1

module _ {W A B : Type 0} where
  abbrev pub continue : Result A → (A → Async W B) → Async W B
  continue (ok x) f w = f x w
  continue (err e) f w = (err e, w)

  infixl 5 ◌>>=◌ ◌>>◌
  unfoldable pub ◌>>=◌ : Async W A → (A → Async W B) → Async W B
  ◌>>=◌ m f w = continue (m w).0 f (m w).1

  unfoldable pub ◌>>◌ : Async W A → Async W B → Async W B
  unfolding ◌>>=◌
  ◌>>◌ m k = ◌>>=◌ m (λ _. k)

module _ {W A B : Type 0} (m : Async W A) (f : A → Async W B) (w : W) where
  -- After code that returned, the rest runs in the world that it left.
  pub bind_of_ok : (x : A) → (m w).0 ≡ ok x → (m >>= f) w ≡ f x (m w).1
  unfolding ◌>>=◌
  bind_of_ok x h = rw h refl

  pub bind_returns :
      {y : B} → ((m >>= f) w).0 ≡ ok y → (x : A) × ((m w).0 ≡ ok x) × ((f x (m w).1).0 ≡ ok y)
  unfolding ◌>>=◌
  bind_returns {y} h = go (m w).0 refl h
    where
      go :
          (r : Result A)
          → (m w).0 ≡ r
          → (continue r f (m w).1).0 ≡ ok y
          → (x : A) × ((m w).0 ≡ ok x) × ((f x (m w).1).0 ≡ ok y)
      go (ok x) e h' = (x, e, h')
      go (err e') e h' = cc

module _ {W A B : Type 0} (r : Result A) (f : A → Async W B) (w : W) where
  pub lift_of_ok : (x : A) → r ≡ ok x → (lift r >>= f) w ≡ f x w
  unfolding ◌>>=◌ lift
  lift_of_ok x h = rw h refl

  pub lift_returns :
      {y : B} → ((lift r >>= f) w).0 ≡ ok y → (x : A) × (r ≡ ok x) × ((f x w).0 ≡ ok y)
  unfolding lift
  lift_returns h = bind_returns (lift r) f w h

-- `for (const x of xs) await f(x)`, with the results.
pub for_each : {W A B : Type 0} → (A → Async W B) → List A → Async W (List B)
for_each f [] = pure []
for_each f (x ∷ xs) = do y ← f x; ys ← for_each f xs; pure (y ∷ ys)
