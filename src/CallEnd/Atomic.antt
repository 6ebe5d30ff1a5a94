-- ===== src/CallEnd/Atomic.antt =====
-- RecordOutcome writes the status and the audit rows that explain it together, or nothing.
use vasuli.Prelude.{
  String, ◌≡◌, ◌≢◌, refl, inl, inr, Bool, true, false, Bool-cases, Option, none, some, List, [],
  ◌∷◌, arith,
}
use vasuli.Exec.{Exec, Result, ok, err, ◌>>=◌}
use vasuli.World.{World, driver_call, transaction, settle}
use vasuli.World.Inversion.{call-AfterCall}
use vasuli.Store.Tables.{Status, RecoverySession}
use vasuli.Store.Rows.{find}
use vasuli.Store.Outcome.{
  OutcomeWrite, one_of, write_outcome, check_status, outcome_body, record_outcome,
}

write_outcome-ne-false : (o : OutcomeWrite) (w : World) → (write_outcome o w).0 ≢ ok false
unfolding write_outcome driver_call ◌>>=◌
write_outcome-ne-false o w h = ground arith

db-check_status :
    (o : OutcomeWrite) (allowed : List Status) (c : Option RecoverySession) (w : World)
    → (check_status o allowed c w).0 ≡ ok false
    → (check_status o allowed c w).1.db ≡ w.db
unfolding check_status
db-check_status o allowed none w h = refl
db-check_status o allowed (some r) w h = elim (Bool-cases (one_of allowed r.status)) [
  | inl t ↦ absurd (write_outcome-ne-false o w (rw t at h))
  | inr f ↦ rw f
]

db-outcome_body :
    (o : OutcomeWrite) (allowed : List Status) (w : World)
    → (outcome_body o allowed w).0 ≡ ok false
    → (outcome_body o allowed w).1.db ≡ w.db
unfolding outcome_body ◌>>=◌
db-outcome_body o allowed w h =
    let a = call-AfterCall _ _ false w h in
    let t : World = record w { faults = a.faults } in
    let run : outcome_body o allowed w ≡ check_status o allowed (find o.session_id w.sessions) t =
      a.step in
    rw run (db-check_status o allowed _ t (rw run at h))

abbrev Unwritten : World → Result Bool × World → Type 0
Unwritten w r = r.0 ≢ ok true → r.1.db ≡ w.db

settle-Unwritten :
    (w : World) (r : Result Bool × World)
    → (r.0 ≡ ok false → r.1.db ≡ w.db)
    → Unwritten w (settle w r)
settle-Unwritten w (ok true, w') h n = absurd (n refl)
settle-Unwritten w (ok false, w') h n = h refl
settle-Unwritten w (err e, w') h n = refl

transaction-Unwritten :
    (o : OutcomeWrite) (allowed : List Status) (w : World)
    → Unwritten w (transaction (outcome_body o allowed) w)
unfolding transaction
transaction-Unwritten o allowed w =
    settle-Unwritten w (outcome_body o allowed w) (db-outcome_body o allowed w)

begin-Unwritten :
    (w : World) (what : String) (m : Exec World Bool) (fs : List (Option String))
    → ((t : World) → Unwritten t (m t))
    → Unwritten w ((driver_call what >>= λ _. m) (record w { faults = fs }))
unfolding driver_call ◌>>=◌
begin-Unwritten w what m [] h n = h (record w { faults = [] }) n
begin-Unwritten w what m (none ∷ fs) h n = h (record w { faults = fs }) n
begin-Unwritten w what m (some cause ∷ fs) h n = refl

-- RecordOutcome that does not report success, because the driver failed at any of its statements,
-- the commit included, because the session is gone or has moved on, or because of a constraint,
-- leaves the database as it was: campaigns, sessions and audit log.
pub record_outcome_atomic :
    (o : OutcomeWrite) (allowed : List Status) (w : World)
    → (record_outcome o allowed w).0 ≢ ok true
    → (record_outcome o allowed w).1.db ≡ w.db
unfolding record_outcome
record_outcome_atomic o allowed w n =
    begin-Unwritten w "store: begin outcome tx" (transaction (outcome_body o allowed)) w.faults
      (transaction-Unwritten o allowed) n
