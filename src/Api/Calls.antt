-- ===== src/Api/Calls.antt =====
-- CreateCampaign, AssignCall and EndCall of internal/api/handlers.go.
use vasuli.Prelude.{
  ℤ, String, Bool, true, false, ◌||◌, Option, none, some, List, [], ◌∷◌, map, str_eq, if◌then◌else◌,
  scale, wrap_i64,
}
use vasuli.Exec.{outcome_already_recorded, Result, ok, err}
use vasuli.World.{World, Client}
use vasuli.Platform.{Platform}
use vasuli.Store.Tables.{Account, Campaign, RecoverySession}
use vasuli.Campaign.EndSession.{end_session}
use vasuli.Campaign.Sessions.{create_campaign, assign_session}
use vasuli.Api.Response.{
  Response, Handler, status_ok, status_ok_noted, campaign_created, session_context, write_json,
  write_error,
}

pub record CreateAccountRequest : Type 0 where
  pub customer_name : String
  pub outstanding_rupees : ℤ
  pub product_name : String
  pub due_date : String
  pub razorpay_payment_id : String

pub record CreateCampaignRequest : Type 0 where
  pub name : String
  pub accounts : List CreateAccountRequest

-- paisePerRupee is 100; the product is one of int64.
abbrev pub to_account : CreateAccountRequest → Account
to_account a = record {
  customer_name = a.customer_name;
  outstanding_paise = wrap_i64 (scale 100 a.outstanding_rupees);
  product_name = a.product_name;
  due_date = a.due_date;
  razorpay_payment_id = a.razorpay_payment_id;
}

abbrev is_empty : List CreateAccountRequest → Bool
is_empty [] = true
is_empty (a ∷ rest) = false

-- A nil campaign without an error would be dereferenced; `none` stands for that panic, which
-- net/http turns into a connection closed without an answer.
abbrev created : Result (Option Campaign) → Option Response
created (ok (some c)) = some (write_json 201 (campaign_created c))
created (ok none) = none
created (err e) = some (write_error 500 "failed to create campaign")

unfoldable pub post_campaign :
    Platform → Option CreateCampaignRequest → World → Option Response × World
post_campaign os none w = (some (write_error 400 "invalid request body"), w)
post_campaign os (some req) w =
    if str_eq req.name "" || is_empty req.accounts
    then (some (write_error 400 "name and at least one account are required"), w)
    else let (r, w') = create_campaign os req.name (map to_account req.accounts) w in
      (created r, w')

abbrev pub assigned : Result (Option RecoverySession) → Response
assigned (ok (some s)) = write_json 200 (session_context s)
assigned (ok none) = write_error 404 "no pending recovery session available"
assigned (err e) = write_error 500 "failed to assign session"

unfoldable pub assign_call : Option String → Handler
assign_call none w = (write_error 400 "invalid request body", w)
assign_call (some call_session_id) w =
    if str_eq call_session_id ""
    then (write_error 400 "call_session_id is required", w)
    else let (r, w') = assign_session call_session_id w in (assigned r, w')

pub record EndCallRequest : Type 0 where
  pub outcome : String
  pub promise_date : String

abbrev pub ended : Result (Unit {0}) → Response
ended (ok u) = write_json 200 status_ok
ended (err outcome_already_recorded) =
    write_json 200 (status_ok_noted "outcome already recorded, no change made")
ended (err e) = write_error 500 "failed to end session"

abbrev end_decoded : Platform → Client → String → Option EndCallRequest → Handler
end_decoded os client call_session_id none w = (write_error 400 "invalid request body", w)
end_decoded os client call_session_id (some req) w =
    let (r, w') = end_session os client call_session_id req.outcome req.promise_date w in
    (ended r, w')

unfoldable pub end_call : Platform → Client → String → Option EndCallRequest → Handler
end_call os client call_session_id req w =
    if str_eq call_session_id ""
    then (write_error 400 "call_session_id is required", w)
    else end_decoded os client call_session_id req w
