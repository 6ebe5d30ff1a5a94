-- ===== src/Razorpay/Links.antt =====
-- What the live client accepts as a payment link, and when the service uses it.
use text.Mathlib.Text.{starts_with}
use vasuli.Prelude.{
  ℕ, String, ◌≡◌, refl, ◌≤◌, ◌<◌, inl, inr, true, false, Bool-cases, Option, none, some, [], ◌∷◌,
  ◌++◌, arith, ltb, leb, str_eq,
}
use vasuli.Exec.{ok}
use vasuli.World.{World, PaymentLinkRequest, PaymentLinkResponse}
use vasuli.Razorpay.Clients.{
  Api, Reply, unsent, unanswered, unreadable, replied, link_body, link_of, read_reply, live_create,
  live, is_test_mode, build_razorpay_client,
}

-- A reply that carries this link.
pub record Carries (api : Api) (reply : Reply) (link : PaymentLinkResponse) : Type 0 where
  pub status : ℕ
  pub payload : String
  pub received : reply ≡ replied status payload
  pub success : (200 ≤ status) × (status < 300)
  pub decoded : api.decode_link payload ≡ some (link.id, link.short_url)
  pub named : str_eq link.id "" ≡ false

link_of-ok :
    (o : Option (String × String)) (link : PaymentLinkResponse)
    → link_of o ≡ ok link
    → (o ≡ some (link.id, link.short_url)) × (str_eq link.id "" ≡ false)
link_of-ok none link h = absurd (cc)
link_of-ok (some (id, url)) link h = elim (Bool-cases (str_eq id "")) [
  | inl t ↦ absurd (cc (rw t at h))
  | inr f ↦ (cc (rw f at h), cc (rw f at h, f))
]

read_reply-Carries :
    (api : Api) (reply : Reply) (link : PaymentLinkResponse)
    → read_reply api reply ≡ ok link
    → Carries api reply link
unfolding read_reply
read_reply-Carries api (unsent cause) link h = absurd (cc)
read_reply-Carries api (unanswered cause) link h = absurd (cc)
read_reply-Carries api (unreadable cause) link h = absurd (cc)
read_reply-Carries api (replied status payload) link h = elim (Bool-cases (ltb status 200)) [
  | inl t ↦ absurd (cc (rw t at h))
  | inr f ↦ elim (Bool-cases (leb 300 status)) [
    | inl t ↦ absurd (cc (rw (f, t) at h))
    | inr g ↦
        let (d, n) = link_of-ok (api.decode_link payload) link (rw (f, g) at h) in
        record {
          status = status;
          payload = payload;
          received = refl;
          success = (ground (arith, f), ground (arith, g));
          decoded = d;
          named = n;
        }
  ]
]

-- The live client reports a link only if the provider answered its one request with a status of
-- success and a body with that link and a non-empty id; and it has put exactly that request on
-- record.
pub live_create-Carries :
    (api : Api) (r : PaymentLinkRequest) (w : World) (link : PaymentLinkResponse)
    → (live_create api r w).0 ≡ ok link
    → Carries api (api.post (link_body api w.clock r) w.clock) link
      × ((live_create api r w).1.link_requests ≡ w.link_requests ++ r ∷ [])
unfolding live_create
live_create-Carries api r w link h =
    let c = read_reply-Carries api (api.post (link_body api w.clock r) w.clock) link h in
    (c, rw (c.received) refl)

-- The service runs against the real provider only with a key id of test mode, given together with a
-- non-empty secret.
pub build_razorpay_client-live :
    (key_id key_secret k s : String)
    → build_razorpay_client key_id key_secret ≡ live k s
    → (k ≡ key_id)
      × (s ≡ key_secret)
      × (starts_with key_id "rzp_test_" ≡ true)
      × (str_eq key_secret "" ≡ false)
unfolding build_razorpay_client is_test_mode
build_razorpay_client-live key_id key_secret k s h = ground (arith, h)
