-- ===== src/Razorpay/Webhook.antt =====
-- razorpay/webhook.go: the signature check, the event envelope and the fields read from it.
use vasuli.Prelude.{
  ℕ, ℤ, pos, negsuc, String, Bool, false, Option, none, some, List, [], ◌∷◌, ltb, str_eq, ◌||◌,
  if◌then◌else◌,
}
use vasuli.Platform.{Platform}

abbrev pub event_payment_failed : String
event_payment_failed = "payment.failed"

abbrev pub event_payment_captured : String
event_payment_captured = "payment.captured"

abbrev pub event_payment_link_paid : String
event_payment_link_paid = "payment_link.paid"

pub record PaymentEntity : Type 0 where
  pub id : String
  pub amount : ℤ
  pub currency : String
  pub description : String
  pub email : String
  pub contact : String
  pub notes : List (String × String)
  pub created_at : ℤ

pub record PaymentLinkEntity : Type 0 where
  pub id : String
  pub status : String
  pub amount : ℤ
  pub amount_paid : ℤ

pub record WebhookEvent : Type 0 where
  pub event : String
  pub payment : PaymentEntity
  pub payment_link : PaymentLinkEntity

-- Signing: the hexadecimal HMAC-SHA256 of a body under a secret, from crypto/hmac, crypto/sha256
-- and encoding/hex.
abbrev pub Mac : Type 0
Mac = String → String → String

unfoldable pub verify_webhook_signature : Mac → String → String → String → Bool
verify_webhook_signature mac body signature secret =
    if str_eq signature "" || str_eq secret "" then false else str_eq (mac secret body) signature

-- `v, ok := p.Notes[key]`.
unfoldable pub note : String → List (String × String) → Option String
note key [] = none
note key ((k, v) ∷ rest) = if str_eq k key then some v else note key rest

abbrev or_next : Option String → String → String
or_next none rest = rest
or_next (some v) rest = if str_eq v "" then rest else v

-- PaymentEntity.CustomerName.
unfoldable pub customer_name : PaymentEntity → String
unfolding note
customer_name p =
    or_next (note "customer_name" p.notes) (or_next (note "name" p.notes) "the customer")

abbrev attempt_date : Platform → ℕ → ℤ → String
attempt_date os now (pos s) = if ltb 0 s then os.format_date (os.of_unix s) else os.format_date now
attempt_date os now (negsuc s) = os.format_date now

-- PaymentEntity.DueDate.
unfoldable pub due_date : Platform → ℕ → PaymentEntity → String
due_date os now p = attempt_date os now p.created_at
