-- ===== src/Api/Deliveries.antt =====
-- What the provider's deliveries to the webhook can do, and how they are answered.
use vasuli.Prelude.{
  String, ◌≡◌, ◌≢◌, refl, ◌⊎◌, eq_iff, inl, inr, Bool, true, false, Option, some, arith,
}
use vasuli.Exec.{Error, Result, ok, err, session_not_found, no_active_campaign}
use vasuli.World.{World}
use vasuli.Platform.{Platform}
use vasuli.Store.Tables.{RecoverySession}
use vasuli.Razorpay.Webhook.{
  Mac, WebhookEvent, verify_webhook_signature, event_payment_failed, event_payment_captured,
}
use vasuli.Campaign.Payments.{handle_payment_captured, handle_payment_failed}
use vasuli.Api.Response.{Response}
use vasuli.Api.Webhook.{
  answer, terminal_failed, terminal_settled, razorpay_webhook, process, dispatch,
}

-- The outcomes of a manager's method that a retry cannot change.
abbrev IsFinal : {A : Type 0} → Error → Result A → Type 0
IsFinal {A} terminal r = ((a : A) × (r ≡ ok a)) ⊎ (r ≡ err terminal)

-- How the outcome of a manager's method is answered: one that a retry cannot change with 200, any
-- other error with 500; and nothing but that method has run.
pub record Answered {A : Type 0} (terminal : Error) (h : Result A × World) (r : Response × World)
    : Type 0 where
  pub world : r.1 ≡ h.1
  pub code :
      ((r.0.code ≡ 200) × IsFinal terminal h.0)
      ⊎ ((r.0.code ≡ 500) × ((e : Error) × (h.0 ≡ err e) × (e ≢ terminal)))

terminal_settled-Answered :
    (h : Result Bool × World) → Answered session_not_found h (answer (terminal_settled h.0), h.1)
terminal_settled-Answered (ok b, w) = record { world = refl; code = inl (refl, inl (b, refl)) }
terminal_settled-Answered (err session_not_found, w) = record {
  world = refl;
  code = inl (refl, inr refl);
}
terminal_settled-Answered (err e, w) = record { world = refl; code = inr (refl, (e, refl, cc)) }

terminal_failed-Answered :
    (h : Result (RecoverySession × Bool) × World)
    → Answered no_active_campaign h (answer (terminal_failed h.0), h.1)
terminal_failed-Answered (ok x, w) = record { world = refl; code = inl (refl, inl (x, refl)) }
terminal_failed-Answered (err no_active_campaign, w) = record {
  world = refl;
  code = inl (refl, inr refl);
}
terminal_failed-Answered (err e, w) = record { world = refl; code = inr (refl, (e, refl, cc)) }

module _ (os : Platform) (mac : Mac) (unmarshal : String → Option WebhookEvent)
    (secret : String) where
  verify_webhook_signature-unsigned :
      (body signature : String)
      → (signature ≡ "") ⊎ (secret ≡ "") ⊎ (mac secret body ≢ signature)
      → verify_webhook_signature mac body signature secret ≡ false
  unfolding verify_webhook_signature
  verify_webhook_signature-unsigned body signature h =
      ground (arith, h, eq_iff signature "", eq_iff secret "", eq_iff (mac secret body) signature)

  -- The webhook fails closed: a request that carries no signature, or one that is not the MAC of its
  -- body under the secret, is answered 400 and changes nothing, and so is every request when no
  -- secret is configured.
  pub razorpay_webhook_unsigned :
      (body signature : String) (w : World)
      → (signature ≡ "") ⊎ (secret ≡ "") ⊎ (mac secret body ≢ signature)
      → let (r, w') = razorpay_webhook os mac unmarshal secret (some body) signature w in
        (r.code ≡ 400) × (w' ≡ w)
  unfolding razorpay_webhook
  razorpay_webhook_unsigned body signature w h =
      rw (verify_webhook_signature-unsigned body signature h) (refl, refl)

  -- A signed payment.captured event is handed to HandlePaymentCaptured and answered by its outcome:
  -- 200 for success and for a payment that no session is about, 500, which makes the provider deliver
  -- it again, for a failure of the store.
  pub razorpay_webhook_captured :
      (body signature : String) (e : WebhookEvent) (w : World)
      → verify_webhook_signature mac body signature secret ≡ true
      → unmarshal body ≡ some e
      → e.event ≡ event_payment_captured
      → Answered session_not_found
          (handle_payment_captured e.payment.id w)
          (razorpay_webhook os mac unmarshal secret (some body) signature w)
  unfolding razorpay_webhook process dispatch
  razorpay_webhook_captured body signature e w v d n =
      rw (v, d, n) (terminal_settled-Answered (handle_payment_captured e.payment.id w))

  -- A signed payment.failed event is handed to HandlePaymentFailed and answered by its outcome: 200
  -- for success and when no campaign is active, 500 for a failure of the store.
  pub razorpay_webhook_failed :
      (body signature : String) (e : WebhookEvent) (w : World)
      → verify_webhook_signature mac body signature secret ≡ true
      → unmarshal body ≡ some e
      → e.event ≡ event_payment_failed
      → Answered no_active_campaign
          (handle_payment_failed os e.payment w)
          (razorpay_webhook os mac unmarshal secret (some body) signature w)
  unfolding razorpay_webhook process dispatch
  razorpay_webhook_failed body signature e w v d n =
      rw (v, d, n) (terminal_failed-Answered (handle_payment_failed os e.payment w))
