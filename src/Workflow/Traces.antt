-- ===== src/Workflow/Traces.antt =====
-- Reasoning about a trace of calls: what holds of the calls made before code that may throw runs
-- holds of the calls after it, with more when it returns.
use sisu_kodo.Prelude.{List, [], ◌∷◌, ◌≡◌}
use sisu_kodo.Failure.{Error, Result, ok, err}
use sisu_kodo.Failure.Async.{Async, pure, throw, lift, catch, ◌>>=◌, ◌>>◌, continue, resume}
use sisu_kodo.Workflow.{Process, Call, invoke, promise_all}

-- What holds of a result and of the process that it leaves.
abbrev pub Outcome : {W A : Type 0} → (A → W → Type 0) → (W → Type 0) → Result A → W → Type 0
Outcome Q E (ok x) w = Q x w
Outcome Q E (err e) w = E w

-- From a process with `P`, code that returns leaves `Q`, and code that throws leaves `E`.
pub record Triple {W A : Type 0} (P : W → Type 0) (m : Async W A) (Q : A → W → Type 0)
    (E : W → Type 0) : Type 0 where
  pub outcome : (w : W) → P w → Outcome Q E (m w).0 (m w).1

Triple-continue :
    {W A B : Type 0} (Q : A → W → Type 0) (R : B → W → Type 0) (E : W → Type 0) (r : Result A)
    (w : W) (f : A → Async W B)
    → Outcome Q E r w
    → ((x : A) → Triple (Q x) (f x) R E)
    → Outcome R E (continue r f w).0 (continue r f w).1
Triple-continue Q R E (ok x) w f h k = (k x).outcome w h
Triple-continue Q R E (err e) w f h k = h

pub Triple-bind :
    {W A B : Type 0} (P : W → Type 0) (Q : A → W → Type 0) (R : B → W → Type 0) (E : W → Type 0)
    (m : Async W A) (f : A → Async W B)
    → Triple P m Q E
    → ((x : A) → Triple (Q x) (f x) R E)
    → Triple P (m >>= f) R E
unfolding ◌>>=◌
Triple-bind P Q R E m f h k = record {
  outcome = λ w p. Triple-continue Q R E (m w).0 (m w).1 f (h.outcome w p) k;
}

Triple-resume :
    {W A : Type 0} (Q : A → W → Type 0) (E F : W → Type 0) (r : Result A) (w : W)
    (f : Error → Async W A)
    → Outcome Q E r w
    → ((e : Error) → Triple E (f e) Q F)
    → Outcome Q F (resume r f w).0 (resume r f w).1
Triple-resume Q E F (ok x) w f h k = h
Triple-resume Q E F (err e) w f h k = (k e).outcome w h

pub Triple-catch :
    {W A : Type 0} (P : W → Type 0) (Q : A → W → Type 0) (E F : W → Type 0) (m : Async W A)
    (f : Error → Async W A)
    → Triple P m Q E
    → ((e : Error) → Triple E (f e) Q F)
    → Triple P (catch m f) Q F
unfolding catch
Triple-catch P Q E F m f h k = record {
  outcome = λ w p. Triple-resume Q E F (m w).0 (m w).1 f (h.outcome w p) k;
}

pub Triple-then :
    {W A B : Type 0} (P Q : W → Type 0) (R : B → W → Type 0) (E : W → Type 0) (m : Async W A)
    (k : Async W B)
    → Triple P m (λ _. Q) E
    → Triple Q k R E
    → Triple P (m >> k) R E
unfolding ◌>>◌
Triple-then P Q R E m k h j = Triple-bind P (λ _. Q) R E m (λ _. k) h (λ _. j)

pub Triple-pure :
    {W A : Type 0} (P : W → Type 0) (Q : A → W → Type 0) (E : W → Type 0) (x : A)
    → ((w : W) → P w → Q x w)
    → Triple P (pure x) Q E
unfolding pure
Triple-pure P Q E x k = record { outcome = k }

pub Triple-throw :
    {W A : Type 0} (P : W → Type 0) (Q : A → W → Type 0) (E : W → Type 0) (e : Error)
    → ((w : W) → P w → E w)
    → Triple P (throw e) Q E
unfolding throw
Triple-throw P Q E e k = record { outcome = k }

-- A property of the calls so far.
abbrev pub On : {S : Type 0} → (List Call → Type 0) → Process S → Type 0
On I p = I p.calls

-- Code that keeps a property of the calls, whether it returns or throws.
abbrev pub Keeps : {S A : Type 0} → (List Call → Type 0) → Async (Process S) A → Type 0
Keeps I m = Triple (On I) m (λ _. On I) (On I)

module _ {S : Type 0} (I : List Call → Type 0) where
  pub Keeps-result :
      {A : Type 0} (r : Result A) (p : Process S)
      → I p.calls
      → Outcome (λ _ q. I q.calls) (λ q. I q.calls) r p
  Keeps-result (ok x) p h = h
  Keeps-result (err e) p h = h

  pub Keeps-lift : {A : Type 0} (r : Result A) → Keeps {S = S} I (lift r)
  unfolding lift
  Keeps-lift r = record { outcome = λ p h. Keeps-result r p h }

  pub Keeps-invoke :
      {A : Type 0} (c : Call) (m : Async S A)
      → ((cs : List Call) → I cs → I (c ∷ cs))
      → Keeps {S = S} I (invoke c m)
  unfolding invoke
  Keeps-invoke c m k = record { outcome = λ p h. Keeps-result (m p.store).0 _ (k p.calls h) }

  pub Keeps-bind :
      {A B : Type 0} (m : Async (Process S) A) (f : A → Async (Process S) B)
      → Keeps {S = S} I m
      → ((x : A) → Keeps {S = S} I (f x))
      → Keeps {S = S} I (m >>= f)
  Keeps-bind m f h k = Triple-bind (On I) (λ _. On I) (λ _. On I) (On I) m f h k

  pub Keeps-then :
      {A B : Type 0} (m : Async (Process S) A) (k : Async (Process S) B)
      → Keeps {S = S} I m
      → Keeps {S = S} I k
      → Keeps {S = S} I (m >> k)
  unfolding ◌>>◌
  Keeps-then m k h j = Keeps-bind m (λ _. k) h (λ _. j)

  pub Keeps-promise_all :
      {A B : Type 0} (f : A → Async (Process S) B)
      → ((x : A) → Keeps {S = S} I (f x))
      → (xs : List A) → Keeps {S = S} I (promise_all f xs)
  unfolding promise_all
  Keeps-promise_all f k [] = record { outcome = λ p h. h }
  Keeps-promise_all f k (x ∷ xs) = record {
    outcome = λ p h. Keeps-result _ _ (
        of_outcome (promise_all f xs (f x p).1).0 _ (
          (Keeps-promise_all f k xs).outcome (f x p).1
            (of_outcome (f x p).0 _ ((k x).outcome p h))));
  }
    where
      of_outcome :
          {A : Type 0} (r : Result A) (q : Process S)
          → Outcome (λ _ v. I v.calls) (λ v. I v.calls) r q
          → I q.calls
      of_outcome (ok _) q h = h
      of_outcome (err _) q h = h

  pub Keeps-pure : {A : Type 0} (x : A) → Keeps {S = S} I (pure x)
  unfolding pure
  Keeps-pure x = record { outcome = λ p h. h }

  pub Keeps-throw : {A : Type 0} (e : Error) → Keeps {S = S} {A = A} I (throw e)
  unfolding throw
  Keeps-throw e = record { outcome = λ p h. h }

-- What a call leaves in the trace.
pub Triple-invoke :
    {S A : Type 0} (I : List Call → Type 0) (J : List Call → Type 0) (c : Call) (m : Async S A)
    → ((cs : List Call) → I cs → J (c ∷ cs))
    → Triple {W = Process S} (On I) (invoke c m) (λ _. On J) (On J)
unfolding invoke
Triple-invoke I J c m k = record { outcome = λ p h. Keeps-result J (m p.store).0 _ (k p.calls h) }

-- A triple with less before it and more after it.
pub Triple-weaken :
    {W A : Type 0} (P P' : W → Type 0) (m : Async W A) (Q Q' : A → W → Type 0) (E E' : W → Type 0)
    → ((w : W) → P' w → P w)
    → ((x : A) (w : W) → Q x w → Q' x w)
    → ((w : W) → E w → E' w)
    → Triple P m Q E
    → Triple P' m Q' E'
Triple-weaken {W} {A} P P' m Q Q' E E' f g h t = record {
  outcome = λ w p. go (m w).0 (m w).1 (t.outcome w (f w p));
}
  where
    go : (r : Result A) (w : W) → Outcome Q E r w → Outcome Q' E' r w
    go (ok x) w k = g x w k
    go (err e) w k = h w k

outcome_calls :
    {S A : Type 0} (I : List Call → Type 0) (r : Result A) (q : Process S)
    → Outcome (λ _ v. I v.calls) (λ v. I v.calls) r q
    → I q.calls
outcome_calls I (ok _) q h = h
outcome_calls I (err _) q h = h

pub calls_after :
    {S A : Type 0} (I : List Call → Type 0) (m : Async (Process S) A) (p : Process S)
    → I p.calls
    → Keeps I m
    → I (m p).1.calls
calls_after I m p h k = outcome_calls I (m p).0 (m p).1 (k.outcome p h)

-- What holds of the process after code that throws.
pub after_throw :
    {W A : Type 0} (P : W → Type 0) (m : Async W A) (Q : A → W → Type 0) (E : W → Type 0)
    → Triple P m Q E
    → (w : W) → P w
    → (e : Error) → (m w).0 ≡ err e
    → E (m w).1
after_throw {W} {A} P m Q E t w p e h = go (m w).0 (t.outcome w p) h
  where
    go : (r : Result A) → Outcome Q E r (m w).1 → r ≡ err e → E (m w).1
    go (ok x) k h = cc
    go (err e') k h = k

-- Nothing is asked of code, and nothing known after it.
pub Triple-any :
    {W A : Type 0} (P : W → Type 0) (m : Async W A) → Triple P m (λ _ _. Unit) (λ _. Unit)
Triple-any {W} {A} P m = record { outcome = λ w p. go (m w).0 (m w).1 }
  where
    go : (r : Result A) (w : W) → Outcome (λ _ _. Unit) (λ _. Unit) r w
    go (ok x) w = tt
    go (err e) w = tt
