-- ===== src/Exec/Inversion.antt =====
-- What a successful run says of its parts.
use vasuli.Prelude.{◌≡◌, refl, ap}
use vasuli.Exec.{Result, ok, err, Exec, proceed, ◌>>=◌}

-- The state and value between the two actions of a bind that succeeded.
pub record Between {ℓ} {S A B : Type ℓ} (m : Exec S A) (f : A → Exec S B) (s : S) (b : B)
    : Type ℓ where
  pub value : A
  pub state : S
  pub first : m s ≡ (ok value, state)
  pub rest : (f value state).0 ≡ ok b
  pub final : ((m >>= f) s).1 ≡ (f value state).1

module _ {ℓ} {S A B : Type ℓ} (m : Exec S A) (f : A → Exec S B) (s : S) (b : B) where
  between : (r : Result A) (t : S) → m s ≡ (r, t) → (proceed r f t).0 ≡ ok b → Between m f s b
  unfolding ◌>>=◌
  between (ok a) t e h = record {
    value = a;
    state = t;
    first = e;
    rest = h;
    final = ap (λ (x : Result A × S). (proceed x.0 f x.1).1) e;
  }
  between (err x) t e h = cc

  pub bind-Between : ((m >>= f) s).0 ≡ ok b → Between m f s b
  unfolding ◌>>=◌
  bind-Between h = between (m s).0 (m s).1 refl h
