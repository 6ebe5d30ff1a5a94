-- ===== src/Payments/Redelivery.antt =====
-- HandlePaymentFailed: a payment that failed is queued once.
use vasuli.Prelude.{◌≡◌, ◌⊎◌, Bool, false, some, arith, str_eq}
use vasuli.Exec.{Error, Result, ok, err, ◌>>=◌}
use vasuli.World.{World, driver_call}
use vasuli.Platform.{Platform}
use vasuli.Store.Tables.{RecoverySession}
use vasuli.Store.Rows.{find_by}
use vasuli.Store.Statements.{get_session_by, get_most_recent_active_campaign}
use vasuli.Razorpay.Webhook.{PaymentEntity}
use vasuli.Campaign.Payments.{queue_on, find_existing, queue_unless, handle_payment_failed}

-- A delivery that queued nothing: it changed nothing, and if it succeeded it named the session.
pub record Known (s : RecoverySession) (w : World) (r : Result (RecoverySession × Bool) × World)
    : Type 0 where
  pub same_db : r.1.db ≡ w.db
  pub result : (r.0 ≡ ok (s, false)) ⊎ ((e : Error) × (r.0 ≡ err e))

-- A payment that has a session: its failure, delivered again, changes nothing in the database, and
-- when it succeeds it reports that session and that none was created.
pub handle_payment_failed-Known :
    (os : Platform) (p : PaymentEntity) (w : World) (s : RecoverySession)
    → str_eq p.id "" ≡ false
    → find_by (λ r. r.razorpay_payment_id) p.id w.sessions ≡ some s
    → Known s w (handle_payment_failed os p w)
unfolding handle_payment_failed queue_on find_existing queue_unless get_most_recent_active_campaign
    get_session_by driver_call ◌>>=◌
handle_payment_failed-Known os p w s n f = ground (arith, f, n)
