-- ===== src/Examples/Money.antt =====
-- The theorems of `Payments` and `Api` at the two worlds.
use Prim.Native.String.{◌++◌}
use vasuli.Prelude.{
  List, ◌+◌, ◌≤◌, ◌≡◌, ◌≢◌, refl, ap, inr, pos, String, Option, some, none, [], ◌∷◌, str_eq, Bool,
  true,
}
use vasuli.Exec.{Result, ok, ◌>>=◌, session_not_found, no_active_campaign}
use vasuli.World.{World, driver_call, random_id}
use vasuli.Store.Tables.{Account, RecoverySession, text}
use vasuli.Store.Rows.{find, find_by, update, taken_by_other}
use vasuli.Store.Statements.{
  now_sql, get_session_by, get_session_by_id, insert_audit_log, insert_recovery_session,
  add_session, session_conflict, increment_campaign_total, get_most_recent_active_campaign,
  newest_running, new_session,
}
use vasuli.Store.Outcome.{mark_recovered, settle_open}
use vasuli.Razorpay.Webhook.{Mac, PaymentEntity, WebhookEvent, verify_webhook_signature}
use vasuli.Campaign.Prompt.{render_system_prompt}
use vasuli.Campaign.Payments.{
  log_captured, confirm_recovery, handle_payment_captured, handle_payment_link_paid,
  handle_payment_failed, failed_account, queue_on, find_existing, queue_unless, queue_payment,
  created_session,
}
use vasuli.Lifecycle.Tables.{Keyed}
use vasuli.Payments.Settled.{
  Settled, Ignored, handle_payment_captured-Settled, handle_payment_link_paid-Settled,
  handle_payment_captured_once,
}
use vasuli.Payments.Total.{recoveries, recovered_rows, recoveries-le-recovered_rows}
use vasuli.History.{Request, captured, link_paid, step, run}
use vasuli.Razorpay.Clients.{stub_client}
use vasuli.Payments.Lost.{CaptureLost, handle_payment_captured_lost}
use vasuli.Payments.Queued.{Queued, handle_payment_failed-Queued, handle_payment_failed_once}
use vasuli.Api.Webhook.{razorpay_webhook}
use vasuli.Api.Deliveries.{
  Answered, razorpay_webhook_unsigned, razorpay_webhook_captured, razorpay_webhook_failed,
}
use vasuli.Examples.Data.{calendar, in_call, two_customers, one_call}

one_call-Keyed : Keyed one_call.sessions
unfolding find
one_call-Keyed = (refl, (refl, tt))

abbrev after_capture : World
after_capture = (handle_payment_captured "pay_1" one_call).1

handle_payment_captured-Settled_example :
    Settled
      (λ r. r.razorpay_payment_id)
      "pay_1"
      (("razorpay_payment_id", text "pay_1") ∷ [])
      one_call
      after_capture
unfolding handle_payment_captured confirm_recovery log_captured mark_recovered settle_open
    get_session_by find_by find update insert_audit_log driver_call ◌>>=◌
handle_payment_captured-Settled_example = handle_payment_captured-Settled "pay_1" one_call refl

handle_payment_captured_once_example :
    Ignored after_capture (handle_payment_captured "pay_1" after_capture)
unfolding handle_payment_captured confirm_recovery log_captured mark_recovered settle_open
    get_session_by find_by find update insert_audit_log driver_call ◌>>=◌
handle_payment_captured_once_example =
    handle_payment_captured_once "pay_1" one_call after_capture one_call-Keyed refl refl

abbrev after_link : World
after_link = (handle_payment_link_paid "plink_1" "pay_9" one_call).1

handle_payment_link_paid-Settled_example :
    Settled
      (λ r. r.razorpay_link_id)
      "plink_1"
      (("razorpay_link_id", text "plink_1") ∷ ("razorpay_payment_id", text "pay_9") ∷ [])
      one_call
      after_link
unfolding handle_payment_link_paid confirm_recovery log_captured mark_recovered settle_open
    get_session_by find_by find update insert_audit_log driver_call ◌>>=◌
handle_payment_link_paid-Settled_example =
    handle_payment_link_paid-Settled "plink_1" "pay_9" one_call refl

-- The capture, the link's event for the same session, and the capture again: one recovery.
abbrev payments : List Request
payments = captured "pay_1" ∷ link_paid "plink_1" "pay_9" ∷ captured "pay_1" ∷ []

payments-run : recoveries calendar stub_client one_call payments ≡ 1
unfolding recoveries step handle_payment_captured handle_payment_link_paid confirm_recovery
    log_captured mark_recovered settle_open get_session_by find_by find update insert_audit_log
    driver_call ◌>>=◌
payments-run = refl

recoveries-le-recovered_rows_example :
    recoveries calendar stub_client one_call payments + recovered_rows one_call.sessions
    ≤ recovered_rows (run calendar stub_client one_call payments).sessions
recoveries-le-recovered_rows_example =
    recoveries-le-recovered_rows calendar stub_client one_call payments one_call-Keyed

abbrev first_delivery : Result Bool × World
first_delivery =
    handle_payment_captured "pay_1"
      (record one_call { faults = none ∷ none ∷ none ∷ some "disk full" ∷ [] })

handle_payment_captured_lost_example :
    CaptureLost "disk full" in_call one_call first_delivery
      (handle_payment_captured "pay_1" first_delivery.1)
unfolding find_by
handle_payment_captured_lost_example =
    handle_payment_captured_lost "pay_1" "disk full" one_call in_call one_call-Keyed refl refl

abbrev payment : PaymentEntity
payment = record {
  id = "pay_2";
  amount = pos 420000;
  currency = "INR";
  description = "";
  email = "asha@example.com";
  contact = "";
  notes = ("name", "Asha") ∷ [];
  created_at = pos 0;
}

abbrev account : Account
account = failed_account calendar two_customers.clock payment

abbrev queued : RecoverySession
queued =
    new_session "rec_00000000000000aa" "camp_1" (render_system_prompt calendar account) account
      (now_sql two_customers)

abbrev after_failure : World
after_failure = (handle_payment_failed calendar payment two_customers).1

handle_payment_failed-Queued_example : Queued calendar payment two_customers after_failure
unfolding handle_payment_failed queue_on find_existing queue_unless queue_payment created_session
    get_most_recent_active_campaign newest_running get_session_by find_by random_id
    insert_recovery_session add_session session_conflict taken_by_other find
    increment_campaign_total insert_audit_log get_session_by_id driver_call ◌>>=◌
handle_payment_failed-Queued_example =
    handle_payment_failed-Queued calendar payment two_customers queued refl

handle_payment_failed_once_example :
    ((handle_payment_failed calendar payment after_failure).1.db ≡ after_failure.db)
    × ((r : RecoverySession)
        → (handle_payment_failed calendar payment after_failure).0 ≢ ok (r, true))
unfolding handle_payment_failed queue_on find_existing queue_unless queue_payment created_session
    get_most_recent_active_campaign newest_running get_session_by find_by random_id
    insert_recovery_session add_session session_conflict taken_by_other find
    increment_campaign_total insert_audit_log get_session_by_id driver_call ◌>>=◌
handle_payment_failed_once_example =
    handle_payment_failed_once calendar payment payment two_customers after_failure queued refl refl
      refl refl

-- A provider that signs with the secret in front of the body, and sends one event.
abbrev mac : Mac
mac secret body = secret ++ body

abbrev delivery : String → WebhookEvent
delivery name = record {
  event = name;
  payment = record payment { id = "pay_1" };
  payment_link = record { id = ""; status = ""; amount = pos 0; amount_paid = pos 0 };
}

abbrev unmarshal : String → Option WebhookEvent
unmarshal body = some (delivery body)

razorpay_webhook_unsigned_example :
    ((razorpay_webhook calendar mac unmarshal "key"
        (some "payment.captured")
        "forged"
        one_call).0.code
      ≡ 400)
    × ((razorpay_webhook calendar mac unmarshal "key" (some "payment.captured") "forged" one_call).1
        ≡ one_call)
razorpay_webhook_unsigned_example =
    razorpay_webhook_unsigned calendar mac unmarshal "key" "payment.captured" "forged" one_call
      (inr (inr (λ h. absurd (cc (ap (λ s. str_eq s "forged") h)))))

razorpay_webhook_captured_example :
    Answered session_not_found (handle_payment_captured "pay_1" one_call) (
      razorpay_webhook calendar mac unmarshal "key"
        (some "payment.captured")
        "keypayment.captured"
        one_call)
unfolding verify_webhook_signature
razorpay_webhook_captured_example =
    razorpay_webhook_captured calendar mac unmarshal "key" "payment.captured" "keypayment.captured"
      (delivery "payment.captured") one_call refl refl refl

razorpay_webhook_failed_example :
    Answered no_active_campaign
      (handle_payment_failed calendar (record payment { id = "pay_1" }) one_call)
      (razorpay_webhook calendar mac unmarshal "key"
        (some "payment.failed")
        "keypayment.failed"
        one_call)
unfolding verify_webhook_signature
razorpay_webhook_failed_example =
    razorpay_webhook_failed calendar mac unmarshal "key" "payment.failed" "keypayment.failed"
      (delivery "payment.failed") one_call refl refl refl
