-- ===== src/Examples/Links.antt =====
-- The theorems on payment links, outcomes and amounts at concrete values.
use vasuli.Prelude.{String, ◌≡◌, ◌++◌, [], ◌∷◌, refl, pos, some, none}
use vasuli.World.{PaymentLinkRequest, PaymentLinkResponse}
use vasuli.Razorpay.Clients.{Api, replied, link_body, read_reply, live_create}
use vasuli.Razorpay.Links.{Carries, live_create-Carries}
use vasuli.Campaign.Amounts.{read, format_rupees-read}
use vasuli.Campaign.Rupees.{format_rupees}
use vasuli.Examples.Data.{one_call}

abbrev link : PaymentLinkResponse
link = record { id = "plink_7"; short_url = "https://rzp.io/i/7" }

-- A provider that grants every request.
abbrev granting : Api
granting = record {
  post = λ body now. replied 200 "granted";
  unix = λ t. t;
  decode_error = λ payload. none;
  decode_link = λ payload. some (link.id, link.short_url);
}

abbrev request : PaymentLinkRequest
request = record { amount_paise = pos 420000; description = "loan"; customer_name = "Asha" }

live_create-Carries_example :
    Carries granting (granting.post (link_body granting one_call.clock request) one_call.clock) link
    × ((live_create granting request one_call).1.link_requests
        ≡ one_call.link_requests ++ request ∷ [])
unfolding live_create read_reply
live_create-Carries_example = live_create-Carries granting request one_call link refl

abbrev key_id : String
key_id = "rzp_test_1"

abbrev key_secret : String
key_secret = "secret"

format_rupees-read_example : read 0 (format_rupees (pos 420050)) ≡ 4200
format_rupees-read_example = format_rupees-read 420050
