-- ===== src/Api/Webhook.antt =====
-- RazorpayWebhook of internal/api/webhook.go.
use vasuli.Prelude.{String, Bool, Option, none, some, str_eq, if◌then◌else◌}
use vasuli.Exec.{Error, session_not_found, no_active_campaign, Result, ok, err}
use vasuli.World.{World}
use vasuli.Platform.{Platform}
use vasuli.Store.Tables.{RecoverySession}
use vasuli.Razorpay.Webhook.{
  Mac, WebhookEvent, event_payment_failed, event_payment_captured, event_payment_link_paid,
  verify_webhook_signature,
}
use vasuli.Campaign.Payments.{
  handle_payment_captured, handle_payment_link_paid, handle_payment_failed,
}
use vasuli.Api.Response.{Response, Handler, status_ok, write_json, write_error}

-- The error that the three event handlers return: none for an outcome that a retry cannot change.
abbrev pub terminal_failed : Result (RecoverySession × Bool) → Option Error
terminal_failed (ok x) = none
terminal_failed (err no_active_campaign) = none
terminal_failed (err e) = some e

abbrev pub terminal_settled : Result Bool → Option Error
terminal_settled (ok changed) = none
terminal_settled (err session_not_found) = none
terminal_settled (err e) = some e

abbrev pub answer : Option Error → Response
answer none = write_json 200 status_ok
answer (some e) = write_error 500 "webhook processing failed"

-- The switch on the event's name, with the handlers handlePaymentFailed, handlePaymentCaptured and
-- handlePaymentLinkPaid.
unfoldable pub dispatch : Platform → WebhookEvent → World → Option Error × World
dispatch os e w =
    if str_eq e.event event_payment_failed
    then failed (handle_payment_failed os e.payment w)
    else if str_eq e.event event_payment_captured
    then settled (handle_payment_captured e.payment.id w)
    else if str_eq e.event event_payment_link_paid
    then settled (handle_payment_link_paid e.payment_link.id e.payment.id w)
    else (none, w)
  where
    failed : Result (RecoverySession × Bool) × World → Option Error × World
    failed r = (terminal_failed r.0, r.1)

    settled : Result Bool × World → Option Error × World
    settled r = (terminal_settled r.0, r.1)

unfoldable pub process : Platform → Option WebhookEvent → Handler
unfolding dispatch
process os none w = (write_error 400 "malformed webhook payload", w)
process os (some e) w = let (failure, w') = dispatch os e w in (answer failure, w')

-- `read` is what reading at most maxWebhookBody bytes of the body gave.
unfoldable pub razorpay_webhook :
    Platform → Mac → (String → Option WebhookEvent) → String → Option String → String → Handler
unfolding process
razorpay_webhook os mac unmarshal secret none signature w =
    (write_error 400 "could not read request body", w)
razorpay_webhook os mac unmarshal secret (some body) signature w =
    if verify_webhook_signature mac body signature secret
    then process os (unmarshal body) w
    else (write_error 400 "signature verification failed", w)
