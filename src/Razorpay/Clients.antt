-- ===== src/Razorpay/Clients.antt =====
-- razorpay/client.go and razorpay/live.go: the stub client, the live client and the choice between
-- them in cmd/main.go. The HTTP transport and the JSON decoding are parameters.
use Prim.Native.String.{◌++◌, len, slice}
use text.Mathlib.Text.{starts_with}
use vasuli.Prelude.{
  ℕ, ℤ, ◌+◌, ◌-◌, ◌≡◌, refl, String, Bool, true, false, Bool-cases, inl, inr, Option, none, some,
  [], ◌∷◌, ◌++◌ as ◌+l◌, ltb, leb, str_eq, arith, ◌&&◌, ◌||◌, if◌then◌else◌,
}
use vasuli.Exec.{Exec, Result, ok, err, other, pure, ◌>>=◌}
use vasuli.World.{World, PaymentLinkRequest, PaymentLinkResponse, Client, because, random_id}
use vasuli.Store.Tables.{day}

-- StubClient.CreatePaymentLink.
unfoldable pub stub_create : PaymentLinkRequest → Exec World PaymentLinkResponse
stub_create r = do
  id ← random_id "plink_stub_" (because "razorpay: stub id generation")
  pure (record { id = id; short_url = "https://rzp.io/i/" ++ slice id (len id - 8) (len id) })

-- The body of POST /v1/payment_links. Notifications and reminders are off in every request.
pub record LinkBody : Type 0 where
  pub amount : ℤ
  pub currency : String
  pub description : String
  pub customer_name : String
  pub notify_sms : Bool
  pub notify_email : Bool
  pub reminder_enable : Bool
  pub expire_by : ℕ

-- What httpClient.Do and reading at most 64 KiB of the body come to: the request never left, or it did
-- and no answer came, or the answer could not be read, or a status and a body.
pub data Reply : Type 0 where
  unsent : String → Reply
  unanswered : String → Reply
  unreadable : String → Reply
  replied : ℕ → String → Reply

-- `post` is the API under the client's credentials, at a moment; `unix` is Time.Unix; the others
-- decode a response body, `none` where json.Unmarshal fails.
pub record Api : Type 0 where
  pub post : LinkBody → ℕ → Reply
  pub unix : ℕ → ℕ
  pub decode_error : String → Option (String × String)
  pub decode_link : String → Option (String × String)

abbrev pub link_validity : ℕ
link_validity = day

unfoldable pub link_body : Api → ℕ → PaymentLinkRequest → LinkBody
link_body api now r = record {
  amount = r.amount_paise;
  currency = "INR";
  description = r.description;
  customer_name = r.customer_name;
  notify_sms = false;
  notify_email = false;
  reminder_enable = false;
  expire_by = api.unix (now + link_validity);
}

abbrev rejection : String → Option (String × String) → String
rejection payload none = because "razorpay: payment link returned" payload
rejection payload (some (code, description)) =
    if str_eq description ""
    then because "razorpay: payment link returned" payload
    else because ("razorpay: payment link rejected (" ++ code ++ ")") description

abbrev pub link_of : Option (String × String) → Result PaymentLinkResponse
link_of none = err (other "razorpay: decode payment link response")
link_of (some (id, short_url)) =
    if str_eq id ""
    then err (other "razorpay: payment link response carried no id")
    else ok (record { id = id; short_url = short_url })

unfoldable pub read_reply : Api → Reply → Result PaymentLinkResponse
read_reply api (unsent cause) = err (other (because "razorpay: payment link request failed" cause))
read_reply api (unanswered cause) =
    err (other (because "razorpay: payment link request failed" cause))
read_reply api (unreadable cause) =
    err (other (because "razorpay: read payment link response" cause))
read_reply api (replied status payload) =
    if ltb status 200 || leb 300 status
    then err (other (rejection payload (api.decode_error payload)))
    else link_of (api.decode_link payload)

abbrev pub is_sent : Reply → Bool
is_sent (unsent cause) = false
is_sent _ = true

-- LiveClient.CreatePaymentLink; a request that left is put on record.
unfoldable pub live_create : Api → PaymentLinkRequest → Exec World PaymentLinkResponse
unfolding link_body read_reply
live_create api r w =
    let reply = api.post (link_body api w.clock r) w.clock in
    (
      read_reply api reply,
      if is_sent reply then record w { link_requests = w.link_requests +l r ∷ [] } else w,
    )

pub stub_keeps_db : (r : PaymentLinkRequest) (w : World) → (stub_create r w).1.db ≡ w.db
unfolding stub_create random_id ◌>>=◌
stub_keeps_db r w = ground arith

pub live_keeps_db :
    (api : Api) (r : PaymentLinkRequest) (w : World) → (live_create api r w).1.db ≡ w.db
unfolding live_create
live_keeps_db api r w = elim (Bool-cases (is_sent (api.post (link_body api w.clock r) w.clock))) [
  | inl t ↦ rw t refl
  | inr f ↦ rw f refl
]

abbrev pub stub_client : Client
stub_client = record { create_payment_link = stub_create; keeps_db = stub_keeps_db }

abbrev pub live_client : Api → Client
live_client api = record { create_payment_link = live_create api; keeps_db = live_keeps_db api }

-- LiveClient.IsTestMode.
unfoldable pub is_test_mode : String → Bool
is_test_mode key_id = starts_with key_id "rzp_test_"

pub data Choice : Type 0 where
  stub : Choice
  live : String → String → Choice
  refused_to_start : String → Choice

-- buildRazorpayClient of cmd/main.go.
unfoldable pub build_razorpay_client : String → String → Choice
unfolding is_test_mode
build_razorpay_client key_id key_secret =
    if str_eq key_id "" && str_eq key_secret ""
    then stub
    else if str_eq key_id "" || str_eq key_secret ""
    then refused_to_start "razorpay credentials incomplete"
    else if is_test_mode key_id
    then live key_id key_secret
    else refused_to_start "not a test-mode key"
