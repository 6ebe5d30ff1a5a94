-- ===== src/Exec/Within.antt =====
-- How an action moves the state: a reflexive and transitive relation between the states before and
-- after, with one rule for each way to build an action.
use vasuli.Prelude.{Bool, true, false, if◌then◌else◌}
use vasuli.Exec.{Error, Result, ok, err, Exec, pure, raise, gets, attempt, proceed, ◌>>=◌}

-- A relation with what composition needs.
pub record Order {ℓ} {S : Type ℓ} (R : S → S → Type ℓ) : Type ℓ where
  pub same : (s : S) → R s s
  pub chain : (s t u : S) → R s t → R t u → R s u

pub record Within {ℓ} {S A : Type ℓ} (R : S → S → Type ℓ) (m : Exec S A) : Type ℓ where
  pub at : (s : S) → R s (m s).1

module _ {ℓ} {S : Type ℓ} {R : S → S → Type ℓ} (o : Order R) where
  pub Within-pure : {A : Type ℓ} (a : A) → Within R (pure {S = S} a)
  Within-pure a = record { at = o.same }

  pub Within-raise : {A : Type ℓ} (e : Error) → Within R (raise {S = S} {A = A} e)
  Within-raise e = record { at = o.same }

  pub Within-gets : {A : Type ℓ} (f : S → A) → Within R (gets f)
  Within-gets f = record { at = o.same }

  proceed-R :
      {A B : Type ℓ} (s t : S) (r : Result A) (f : A → Exec S B)
      → R s t
      → ((a : A) → Within R (f a))
      → R s (proceed r f t).1
  proceed-R s t (ok a) f h g = o.chain s t _ h ((g a).at t)
  proceed-R s t (err e) f h g = h

  pub Within-bind :
      {A B : Type ℓ} (m : Exec S A) (f : A → Exec S B)
      → Within R m
      → ((a : A) → Within R (f a))
      → Within R (m >>= f)
  unfolding ◌>>=◌
  Within-bind m f h g = record { at = λ s. proceed-R s (m s).1 (m s).0 f (h.at s) g }

  pub Within-if :
      {A : Type ℓ} (b : Bool) (m n : Exec S A)
      → Within R m
      → Within R n
      → Within R (if b then m else n)
  Within-if true m n h k = h
  Within-if false m n h k = k

pub Within-attempt {ℓ} :
    {S A : Type ℓ} {R : S → S → Type ℓ} (m : Exec S A) → Within R m → Within R (attempt m)
unfolding attempt
Within-attempt m h = record { at = h.at }
