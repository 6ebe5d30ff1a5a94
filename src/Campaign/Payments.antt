-- ===== src/Campaign/Payments.antt =====
-- HandlePaymentCaptured, HandlePaymentLinkPaid, markRecovered and HandlePaymentFailed of
-- campaign/manager.go.
use vasuli.Prelude.{
  ℕ, String, Bool, true, false, Option, none, some, [], ◌∷◌, str_eq, if◌then◌else◌,
}
use vasuli.Exec.{Exec, session_not_found, no_active_campaign, other, pure, raise, gets, ◌>>=◌, ◌>>◌}
use vasuli.World.{World}
use vasuli.Platform.{Platform}
use vasuli.Store.Tables.{Campaign, Account, RecoverySession, Payload, text, paise}
use vasuli.Store.Statements.{
  insert_recovery_session, insert_audit_log, increment_campaign_total, get_session_by_id,
  get_session_by_razorpay_payment_id, get_session_by_razorpay_link_id,
  get_most_recent_active_campaign,
}
use vasuli.Store.Outcome.{mark_recovered}
use vasuli.Razorpay.Webhook.{PaymentEntity, customer_name, due_date}
use vasuli.Campaign.Prompt.{render_system_prompt}
use vasuli.Campaign.Outcome.{event}
use vasuli.Campaign.Sessions.{new_id}

unfoldable pub log_captured : String → Payload → Bool → Exec World Bool
log_captured id event_data false = pure false
log_captured id event_data true = do
  insert_audit_log id (event "payment_captured" event_data)
  pure true

-- markRecovered; the result says whether this call changed the session.
unfoldable pub confirm_recovery : Payload → Option RecoverySession → Exec World Bool
unfolding log_captured
confirm_recovery event_data none = raise session_not_found
confirm_recovery event_data (some s) = do
  changed ← mark_recovered s.id
  log_captured s.id event_data changed

unfoldable pub handle_payment_captured : String → Exec World Bool
unfolding confirm_recovery
handle_payment_captured payment_id = do
  found ← get_session_by_razorpay_payment_id payment_id
  confirm_recovery (("razorpay_payment_id", text payment_id) ∷ []) found

unfoldable pub handle_payment_link_paid : String → String → Exec World Bool
unfolding confirm_recovery
handle_payment_link_paid link_id payment_id = do
  found ← get_session_by_razorpay_link_id link_id
  confirm_recovery
      (("razorpay_link_id", text link_id) ∷ ("razorpay_payment_id", text payment_id) ∷ []) found

abbrev or_outstanding : String → String
or_outstanding description = if str_eq description "" then "outstanding payment" else description

-- `now` is read by DueDate when the event has no timestamp.
abbrev pub failed_account : Platform → ℕ → PaymentEntity → Account
failed_account os now p = record {
  customer_name = customer_name p;
  outstanding_paise = p.amount;
  product_name = or_outstanding p.description;
  due_date = due_date os now p;
  razorpay_payment_id = p.id;
}

unfoldable pub created_session : Option RecoverySession → Exec World (RecoverySession × Bool)
created_session none = raise (other "campaign: session vanished immediately after insert")
created_session (some s) = pure (s, true)

-- From the ids on: the row, the campaign's total and two audit rows.
unfoldable pub queue_payment :
    Platform → Campaign → PaymentEntity → Account → Exec World (RecoverySession × Bool)
unfolding created_session
queue_payment os campaign p acc = do
  session_id ← new_id "rec_"
  insert_recovery_session session_id campaign.id (render_system_prompt os acc) acc
  increment_campaign_total campaign.id
  insert_audit_log session_id (
      event "webhook_received" (
        ("razorpay_payment_id", text p.id)
        ∷ ("customer_name", text acc.customer_name)
        ∷ ("amount_paise", paise acc.outstanding_paise)
        ∷ []))
  insert_audit_log session_id (
      event "session_created" (
        ("customer_name", text acc.customer_name) ∷ ("source", text "payment.failed webhook") ∷ []))
  created ← get_session_by_id session_id
  created_session created

-- The redelivery check, which an event without a payment id skips.
unfoldable pub find_existing : String → Exec World (Option RecoverySession)
find_existing id = if str_eq id "" then pure none else get_session_by_razorpay_payment_id id

unfoldable pub queue_unless :
    Platform
    → Campaign
    → PaymentEntity
    → Option RecoverySession
    → Exec World (RecoverySession × Bool)
unfolding queue_payment
queue_unless os campaign p (some existing) = pure (existing, false)
queue_unless os campaign p none = do
  now ← gets λ w. w.clock
  queue_payment os campaign p (failed_account os now p)

unfoldable pub queue_on :
    Platform → PaymentEntity → Option Campaign → Exec World (RecoverySession × Bool)
unfolding queue_unless find_existing
queue_on os p none = raise no_active_campaign
queue_on os p (some campaign) = do
  existing ← find_existing p.id
  queue_unless os campaign p existing

unfoldable pub handle_payment_failed :
    Platform → PaymentEntity → Exec World (RecoverySession × Bool)
unfolding queue_on
handle_payment_failed os p = do campaign ← get_most_recent_active_campaign; queue_on os p campaign
