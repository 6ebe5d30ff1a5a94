-- ===== src/Payments/Lost.antt =====
-- The two writes of markRecovered in campaign/manager.go are not one transaction.
use vasuli.Prelude.{String, ◌≡◌, refl, Bool, false, none, some, [], ◌∷◌}
use vasuli.Exec.{Result, ok, err, other, ◌>>=◌}
use vasuli.World.{World, because, driver_call}
use vasuli.Store.Tables.{RecoverySession}
use vasuli.Store.Rows.{find, find_by}
use vasuli.Store.Statements.{now_sql, get_session_by, insert_audit_log}
use vasuli.Store.Outcome.{is_recovered, settle_row, settle_open, mark_recovered}
use vasuli.Campaign.Payments.{log_captured, confirm_recovery, handle_payment_captured}
use vasuli.Lookup.{find-update_self, find_by-find, find_by-update}
use vasuli.Lifecycle.Tables.{Keyed}

-- What a delivery whose audit row cannot be written, and the delivery after it, leave behind.
pub record CaptureLost (cause : String) (s : RecoverySession) (w : World)
    (first : Result Bool × World) (again : Result Bool × World) : Type 0 where
  pub failed : first.0 ≡ err (other (because "store: insert audit log" cause))
  pub settled : find s.id again.1.sessions ≡ some (settle_row (now_sql w) s)
  pub acknowledged : again.0 ≡ ok false
  pub unlogged : again.1.audit_log ≡ w.audit_log

-- A capture can go unlogged for good: if the driver fails at the audit row of a session that was
-- not yet recovered, HandlePaymentCaptured fails with the session recovered, and the delivery that
-- the failure asks for finds the session recovered, reports no recovery and succeeds, so that no
-- audit row is ever written. The ids of the table are distinct.
pub handle_payment_captured_lost :
    (payment_id cause : String) (w : World) (s : RecoverySession)
    → Keyed w.sessions
    → find_by (λ r. r.razorpay_payment_id) payment_id w.sessions ≡ some s
    → is_recovered s.status ≡ false
    → let first =
        handle_payment_captured payment_id
          (record w { faults = none ∷ none ∷ none ∷ some cause ∷ [] }) in
      CaptureLost cause s w first (handle_payment_captured payment_id first.1)
unfolding handle_payment_captured get_session_by driver_call ◌>>=◌ confirm_recovery log_captured
    mark_recovered settle_open settle_row insert_audit_log
handle_payment_captured_lost payment_id cause w s k f c =
    let hit = find_by-find _ payment_id w.sessions s k f in
    let upd = find-update_self s.id (settle_row (now_sql w)) w.sessions s hit refl in
    let upb =
      find_by-update (λ r. r.razorpay_payment_id) payment_id (settle_row (now_sql w)) w.sessions s k
        f refl in
    rw (f, hit, c)
      (rw (upb, upd)
        (record { failed = refl; settled = upd; acknowledged = refl; unlogged = refl }))
