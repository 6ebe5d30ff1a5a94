-- ===== src/CallEnd/Refused.antt =====
-- RecordOutcome on a session in an allowed status never reports that it has moved on.
use vasuli.Prelude.{
  String, ◌≡◌, ◌≢◌, refl, ◌⊎◌, inl, inr, Bool, true, Bool-cases, Option, none, some, List, [], ◌∷◌,
}
use vasuli.Exec.{Exec, Result, ok, err, other, outcome_already_recorded, proceed, ◌>>=◌}
use vasuli.World.{World, driver_call, transaction, settle}
use vasuli.Store.Tables.{Status, RecoverySession, AuditEvent}
use vasuli.Store.Rows.{find}
use vasuli.Store.Statements.{insert_audit_log, reject_if}
use vasuli.Store.Outcome.{
  OutcomeWrite, one_of, insert_events, store_outcome, link_conflict, write_outcome, check_status,
  outcome_body, record_outcome,
}

-- The result is `a`, or an error with a text of its own.
abbrev pub Told : {A : Type 0} → A → Result A → Type 0
Told a r = (r ≡ ok a) ⊎ ((message : String) × (r ≡ err (other message)))

pub Told-ne : {A : Type 0} (a : A) (r : Result A) → Told a r → r ≢ err outcome_already_recorded
Told-ne a r (inl e) h = cc
Told-ne a r (inr (message, e)) h = cc

proceed-Told :
    {A B : Type 0} (a : A) (b : B) (f : A → Exec World B) (r : Result A) (w : World)
    → Told a r
    → ((t : World) → Told b (f a t).0)
    → Told b (proceed r f w).0
proceed-Told a b f r w (inl e) h = rw e (h w)
proceed-Told a b f r w (inr (message, e)) h = rw e (inr (message, refl))

bind-Told :
    {A B : Type 0} (a : A) (b : B) (m : Exec World A) (f : A → Exec World B) (w : World)
    → Told a (m w).0
    → ((t : World) → Told b (f a t).0)
    → Told b ((m >>= f) w).0
unfolding ◌>>=◌
bind-Told a b m f w t h = proceed-Told a b f (m w).0 (m w).1 t h

driver_call-Told : (what : String) (w : World) → Told tt (driver_call what w).0
unfolding driver_call
driver_call-Told what w = with_faults w.faults
  where
    with_faults :
        (fs : List (Option String)) → Told tt (driver_call what (record w { faults = fs })).0
    with_faults [] = inl refl
    with_faults (none ∷ fs) = inl refl
    with_faults (some cause ∷ fs) = inr (_, refl)

insert_audit_log-Told :
    (id : String) (e : AuditEvent) (w : World) → Told tt (insert_audit_log id e w).0
unfolding insert_audit_log
insert_audit_log-Told id e w =
    bind-Told tt tt (driver_call "store: insert audit log") _ w (driver_call-Told _ w)
      (λ t. inl refl)

insert_events-Told :
    (id : String) (es : List AuditEvent) (w : World) → Told tt (insert_events id es w).0
unfolding insert_events
insert_events-Told id [] w = inl refl
insert_events-Told id (e ∷ es) w =
    bind-Told tt tt (insert_audit_log id e) _ w (insert_audit_log-Told id e w)
      (λ t. insert_events-Told id es t)

store_outcome-Told : (o : OutcomeWrite) (w : World) → Told true (store_outcome o w).0
unfolding store_outcome ◌>>=◌
store_outcome-Told o w =
    bind-Told tt true (insert_events o.session_id o.events) _ _
      (insert_events-Told o.session_id o.events _)
      (λ t.
        bind-Told tt true (driver_call "store: commit outcome") _ t (driver_call-Told _ t)
          (λ u. inl refl))

reject_if-Told :
    (test : World → Bool) (what : String) (w : World) → Told tt (reject_if test what w).0
reject_if-Told test what w = elim (Bool-cases (test w)) [
  | inl t ↦ rw t (inr (_, refl))
  | inr f ↦ rw f (inl refl)
]

write_outcome-Told : (o : OutcomeWrite) (w : World) → Told true (write_outcome o w).0
unfolding write_outcome
write_outcome-Told o w =
    bind-Told tt true (driver_call "store: apply outcome") _ w (driver_call-Told _ w) (λ t.
      bind-Told tt true (reject_if (link_conflict o) "store: apply outcome") _ t
        (reject_if-Told (link_conflict o) "store: apply outcome" t) (λ u. store_outcome-Told o u))

settle-Told : (w : World) (r : Result Bool × World) → Told true r.0 → Told true (settle w r).0
settle-Told w (ok a, t) h = h
settle-Told w (err e, t) h = h

module _ (o : OutcomeWrite) (allowed : List Status) (s : RecoverySession) where
  check_status-Told :
      (w : World) → one_of allowed s.status ≡ true → Told true (check_status o allowed (some s) w).0
  unfolding check_status
  check_status-Told w h = rw h (write_outcome-Told o w)

  outcome_body-Told :
      (w : World)
      → find o.session_id w.sessions ≡ some s
      → one_of allowed s.status ≡ true
      → Told true (outcome_body o allowed w).0
  unfolding outcome_body driver_call ◌>>=◌
  outcome_body-Told w f h = with_faults w.faults
    where
      with_faults :
          (fs : List (Option String))
          → Told true (outcome_body o allowed (record w { faults = fs })).0
      with_faults [] = rw f (check_status-Told (record w { faults = [] }) h)
      with_faults (none ∷ fs) = rw f (check_status-Told (record w { faults = fs }) h)
      with_faults (some cause ∷ fs) = inr (_, refl)

  -- RecordOutcome on a session that is there, in an allowed status, succeeds or fails with a text.
  pub record_outcome-Told :
      (w : World)
      → find o.session_id w.sessions ≡ some s
      → one_of allowed s.status ≡ true
      → Told true (record_outcome o allowed w).0
  unfolding record_outcome driver_call transaction ◌>>=◌
  record_outcome-Told w f h = with_faults w.faults
    where
      with_faults :
          (fs : List (Option String))
          → Told true (record_outcome o allowed (record w { faults = fs })).0
      with_faults [] =
          settle-Told (record w { faults = [] }) _
            (outcome_body-Told (record w { faults = [] }) f h)
      with_faults (none ∷ fs) =
          settle-Told (record w { faults = fs }) _
            (outcome_body-Told (record w { faults = fs }) f h)
      with_faults (some cause ∷ fs) = inr (_, refl)
