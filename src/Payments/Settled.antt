-- ===== src/Payments/Settled.antt =====
-- A payment event settles the session that it is about, once, whichever of the two events comes.
use vasuli.Prelude.{
  ℕ, String, ◌≡◌, ◌≢◌, refl, ap, ◌∙◌, Bool, true, false, Option, none, some, List, [], ◌∷◌,
}
use vasuli.Exec.{Result, ok, Exec, ◌>>=◌}
use vasuli.Exec.Inversion.{bind-Between}
use vasuli.World.{World, driver_call}
use vasuli.Store.Tables.{RecoverySession, Payload, Database, text}
use vasuli.Store.Rows.{find, find_by, update}
use vasuli.Store.Statements.{now_sql, get_session_by}
use vasuli.Store.Outcome.{is_open, settle_row}
use vasuli.Campaign.Payments.{confirm_recovery, handle_payment_captured, handle_payment_link_paid}
use vasuli.Lookup.{get_session_by-Looked, find-update_self, find_by-find, find_by-update}
use vasuli.Lifecycle.Tables.{Keyed}
use vasuli.Payments.Captured.{Captured, confirm_recovery-Captured, confirm_recovery_settled}

-- What both events do.
abbrev settle_by : (RecoverySession → Option String) → String → Payload → Exec World Bool
settle_by column value payload = get_session_by column value >>= confirm_recovery payload

-- An event that reported a recovery: the session that it found, and what it did to it.
pub record Settled (column : RecoverySession → Option String) (value : String) (payload : Payload)
    (w w' : World) : Type 0 where
  pub row : RecoverySession
  pub bound : find_by column value w.sessions ≡ some row
  pub captured : Captured payload row w w'

-- An event that has not reported a recovery and has changed nothing.
abbrev pub Ignored : World → Result Bool × World → Type 0
Ignored w r = (r.0 ≢ ok true) × (r.1.db ≡ w.db)

found-Settled :
    (column : RecoverySession → Option String) (value : String) (payload : Payload)
    (o : Option RecoverySession) (w : World)
    → find_by column value w.sessions ≡ o
    → (confirm_recovery payload o w).0 ≡ ok true
    → Settled column value payload w (confirm_recovery payload o w).1
unfolding confirm_recovery
found-Settled column value payload none w f h = absurd (cc)
found-Settled column value payload (some s) w f h = record {
  row = s;
  bound = f;
  captured = confirm_recovery-Captured payload s w h;
}

Settled-faults :
    (column : RecoverySession → Option String) (value : String) (payload : Payload) (w w' : World)
    (fs : List (Option String))
    → Settled column value payload (record w { faults = fs }) w'
    → Settled column value payload w w'
Settled-faults column value payload w w' fs e = record {
  row = e.row;
  bound = e.bound;
  captured = record {
    open_before = e.captured.open_before;
    table = e.captured.table;
    written = e.captured.written;
    log = e.captured.log;
  };
}

settle_by-Settled :
    (column : RecoverySession → Option String) (value : String) (payload : Payload) (w : World)
    → (settle_by column value payload w).0 ≡ ok true
    → Settled column value payload w (settle_by column value payload w).1
settle_by-Settled column value payload w h =
    let m = bind-Between (get_session_by column value) (confirm_recovery payload) w true h in
    let l = get_session_by-Looked column value w m.value m.state m.first in
    rw (m.final, l.state)
      (Settled-faults column value payload w _ l.faults
        (found-Settled column value payload m.value _ l.found (rw l.state at m.rest)))

settle_by_settled :
    (column : RecoverySession → Option String) (value : String) (payload : Payload) (w : World)
    (s : RecoverySession)
    → find_by column value w.sessions ≡ some s
    → is_open (find s.id w.sessions) ≡ false
    → Ignored w (settle_by column value payload w)
unfolding get_session_by driver_call ◌>>=◌
settle_by_settled column value payload w s f c = with_faults w.faults
  where
    with_faults :
        (fs : List (Option String))
        → Ignored w (settle_by column value payload (record w { faults = fs }))
    with_faults [] = rw f (confirm_recovery_settled payload s (record w { faults = [] }) c)
    with_faults (none ∷ fs) = rw f (confirm_recovery_settled payload s (record w { faults = fs }) c)
    with_faults (some cause ∷ fs) = (cc, refl)

settled_once :
    (column : RecoverySession → Option String) (value : String) (payload again : Payload)
    (w v : World)
    → ((now : ℕ) (r : RecoverySession) → column (settle_row now r) ≡ column r)
    → Keyed w.sessions
    → (settle_by column value payload w).0 ≡ ok true
    → v.db ≡ (settle_by column value payload w).1.db
    → Ignored v (settle_by column value again v)
unfolding settle_row
settled_once column value payload again w v keeps k h same =
    let e = settle_by-Settled column value payload w h in
    let s = e.row in
    let change = settle_row (now_sql w) in
    let table : v.sessions ≡ update s.id change w.sessions =
      ap (λ (b : Database). b.sessions) same ∙ e.captured.table in
    settle_by_settled column value again v (change s)
      (rw table (find_by-update column value change w.sessions s k e.bound (keeps (now_sql w) s)))
      (rw table (
        rw
          (find-update_self s.id change w.sessions s
            (find_by-find column value w.sessions s k e.bound) refl)
          refl))

-- HandlePaymentCaptured that reports a recovery has found the session of that payment not yet
-- recovered, has marked that row recovered at this moment and taken it off the call schedule, has
-- changed no other row, and has logged the capture exactly once, at the end of the audit log.
pub handle_payment_captured-Settled :
    (payment_id : String) (w : World)
    → (handle_payment_captured payment_id w).0 ≡ ok true
    → Settled
        (λ r. r.razorpay_payment_id)
        payment_id
        (("razorpay_payment_id", text payment_id) ∷ [])
        w
        (handle_payment_captured payment_id w).1
unfolding handle_payment_captured
handle_payment_captured-Settled payment_id w h = settle_by-Settled _ payment_id _ w h

-- HandlePaymentLinkPaid that reports a recovery has found the session of that link not yet recovered,
-- has marked that row recovered at this moment and taken it off the call schedule, has changed no
-- other row, and has logged the payment exactly once, at the end of the audit log, with the ids of the
-- link and of the payment.
pub handle_payment_link_paid-Settled :
    (link_id payment_id : String) (w : World)
    → (handle_payment_link_paid link_id payment_id w).0 ≡ ok true
    → Settled
        (λ r. r.razorpay_link_id)
        link_id
        (("razorpay_link_id", text link_id) ∷ ("razorpay_payment_id", text payment_id) ∷ [])
        w
        (handle_payment_link_paid link_id payment_id w).1
unfolding handle_payment_link_paid
handle_payment_link_paid-Settled link_id payment_id w h = settle_by-Settled _ link_id _ w h

-- A payment counts once: after HandlePaymentCaptured has reported a recovery, the same event
-- delivered again reports none and leaves the database as it is, at any later time on the database
-- that the first delivery left, and whatever the driver does. The ids of the table are distinct.
pub handle_payment_captured_once :
    (payment_id : String) (w v : World)
    → Keyed w.sessions
    → (handle_payment_captured payment_id w).0 ≡ ok true
    → v.db ≡ (handle_payment_captured payment_id w).1.db
    → Ignored v (handle_payment_captured payment_id v)
unfolding handle_payment_captured settle_row
handle_payment_captured_once payment_id w v k h same =
    settled_once (λ r. r.razorpay_payment_id) payment_id _ _ w v (λ now r. refl) k h same

-- After HandlePaymentLinkPaid has reported a recovery, no event for the same link, with any payment
-- id, reports one or changes the database, at any later time on the database that the first one
-- left, and whatever the driver does. The ids of the table are distinct.
pub handle_payment_link_paid_once :
    (link_id payment_id payment_id' : String) (w v : World)
    → Keyed w.sessions
    → (handle_payment_link_paid link_id payment_id w).0 ≡ ok true
    → v.db ≡ (handle_payment_link_paid link_id payment_id w).1.db
    → Ignored v (handle_payment_link_paid link_id payment_id' v)
unfolding handle_payment_link_paid settle_row
handle_payment_link_paid_once link_id payment_id payment_id' w v k h same =
    settled_once (λ r. r.razorpay_link_id) link_id _ _ w v (λ now r. refl) k h same
