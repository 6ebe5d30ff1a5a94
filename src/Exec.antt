-- ===== src/Exec.antt =====
-- Go methods that change shared state and return `(value, error)`: the state that was reached comes
-- back beside the result, because what a failing call wrote before it failed stays written.
pub mod Within
pub mod Inversion
use vasuli.Prelude.{String}

-- The errors that callers tell apart by `errors.Is` (the sentinels of campaign/manager.go), and
-- every other error, by its text.
pub data Error : Type 0 where
  outcome_already_recorded session_not_found no_active_campaign : Error
  other : String → Error

pub data Result {ℓ} (A : Type ℓ) : Type ℓ where
  ok : A → Result A
  err : Error → Result A

abbrev pub Exec {ℓ} : Type ℓ → Type ℓ → Type ℓ
Exec S A = S → Result A × S

module _ {ℓ} {S A : Type ℓ} where
  abbrev pub pure : A → Exec S A
  pure a s = (ok a, s)

  abbrev pub raise : Error → Exec S A
  raise e s = (err e, s)

module _ {ℓ} {S A B : Type ℓ} where
  abbrev pub proceed : Result A → (A → Exec S B) → Exec S B
  proceed (ok a) f s = f a s
  proceed (err e) f s = (err e, s)

  infixl 10 ◌>>=◌ ◌>>◌
  unfoldable pub ◌>>=◌ : Exec S A → (A → Exec S B) → Exec S B
  ◌>>=◌ m f s = let (r, s') = m s in proceed r f s'

  abbrev pub ◌>>◌ : Exec S A → Exec S B → Exec S B
  m >> n = m >>= λ _. n

-- A value computed from the state.
abbrev pub gets {ℓ} : {S A : Type ℓ} → (S → A) → Exec S A
gets f s = (ok (f s), s)

-- A change of the state that cannot fail.
abbrev pub modify {ℓ} : {S : Type ℓ} → (S → S) → Exec S (Unit {ℓ})
modify f s = (ok tt, f s)

-- `r, err := m`: the call's result as a value, for a caller that handles the error itself.
unfoldable pub attempt {ℓ} : {S A : Type ℓ} → Exec S A → Exec S (Result A)
attempt m s = let (r, s') = m s in (ok r, s')
