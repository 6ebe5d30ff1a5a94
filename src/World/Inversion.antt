-- ===== src/World/Inversion.antt =====
-- What a run that succeeded says of the driver calls in it.
use vasuli.Prelude.{String, ◌≡◌, refl, Option, none, some, List, [], ◌∷◌, arith}
use vasuli.Exec.{Exec, Result, ok, err, ◌>>=◌}
use vasuli.World.{World, driver_call, transaction, settle}

-- A step behind a driver call that did not fail runs in a state with the same database and clock.
pub record AfterCall {B : Type 0} (what : String) (f : Unit {0} → Exec World B) (w : World)
    : Type 0 where
  pub faults : List (Option String)
  pub step : (driver_call what >>= f) w ≡ f tt (record w { faults = faults })

module _ {B : Type 0} (what : String) (f : Unit {0} → Exec World B) (b : B) where
  after :
      (w : World) (fs : List (Option String))
      → ((driver_call what >>= f) (record w { faults = fs })).0 ≡ ok b
      → AfterCall what f (record w { faults = fs })
  unfolding driver_call ◌>>=◌
  after w [] h = record { faults = []; step = refl }
  after w (none ∷ fs) h = record { faults = fs; step = refl }
  after w (some cause ∷ fs) h = absurd (cc)

  pub call-AfterCall : (w : World) → ((driver_call what >>= f) w).0 ≡ ok b → AfterCall what f w
  call-AfterCall w h = after w w.faults h

pub transaction-ok :
    {A : Type 0} (m : Exec World A) (w : World) (a : A)
    → (transaction m w).0 ≡ ok a
    → m w ≡ (ok a, (transaction m w).1)
unfolding transaction
transaction-ok {A} m w a h = go (m w) refl h
  where
    go : (r : Result A × World) → m w ≡ r → (settle w r).0 ≡ ok a → m w ≡ (ok a, (settle w r).1)
    go (ok b, w') e k = ground (arith, e)
    go (err x, w') e k = cc
