-- ===== src/Voice/Recovery.antt =====
-- The client of internal/recovery/client.go, and what can happen to one of its requests on the way.
use vasuli.Prelude.{
  ℕ, ℤ, pos, String, Bool, true, false, ◌||◌, some, ltb, leb, str_eq, ◌==◌, if◌then◌else◌,
}
use vasuli.World.{World, Client}
use vasuli.Platform.{Platform}
use vasuli.Api.Response.{Response, Body, Handler, session_context}
use vasuli.Api.Calls.{EndCallRequest, assign_call, end_call}

pub record SessionContext : Type 0 where
  pub session_id : String
  pub customer_name : String
  pub outstanding_amount_paise : ℤ
  pub product_name : String
  pub due_date : String
  pub system_prompt : String

-- The network and the HTTP client: the request may not arrive, the answer may not come back (within
-- requestTimeout) or not decode.
pub data Delivery : Type 0 where
  request_lost : String → Delivery
  reply_lost : String → Delivery
  reply_garbled : Delivery
  delivered : Delivery

-- assignResponse, and json.Decode into SessionContext: an object without its fields leaves it zero.
abbrev pub context_of : Body → SessionContext
context_of (session_context s) = record {
  session_id = s.id;
  customer_name = s.customer_name;
  outstanding_amount_paise = s.outstanding_paise;
  product_name = s.product_name;
  due_date = s.due_date;
  system_prompt = s.system_prompt;
}
context_of _ = record {
  session_id = "";
  customer_name = "";
  outstanding_amount_paise = pos 0;
  product_name = "";
  due_date = "";
  system_prompt = "";
}

-- What doPost returns: an error with the status of the answer, 0 if there was none, or the body.
pub data Posted : Type 0 where
  failed : ℕ → String → Posted
  posted : Body → Posted

abbrev pub success : ℕ → Bool
success status = if ltb status 200 || leb 300 status then false else true

-- `decodes` says that the caller passes an `out` to decode the body into.
abbrev pub answer_of : Bool → Delivery → Response → Posted
answer_of decodes (request_lost cause) r = failed 0 cause
answer_of decodes (reply_lost cause) r = failed 0 cause
answer_of decodes reply_garbled r =
    if success r.code
    then if decodes then failed r.code "decode response" else posted r.body
    else failed r.code "returned"
answer_of decodes delivered r = if success r.code then posted r.body else failed r.code "returned"

unfoldable pub do_post : Bool → Delivery → Handler → World → Posted × World
do_post decodes (request_lost cause) h w = (failed 0 cause, w)
do_post decodes d h w = let (r, w') = h w in (answer_of decodes d r, w')

pub data Assigned : Type 0 where
  context : SessionContext → Assigned
  no_pending_session : Assigned
  assign_failed : String → Assigned

abbrev pub assigned_of : Posted → Assigned
assigned_of (failed status cause) =
    if status == 404 then no_pending_session else assign_failed cause
assigned_of (posted body) =
    let out = context_of body in
    if str_eq out.system_prompt ""
    then assign_failed "recovery: assign response carried an empty system prompt"
    else context out

-- Client.AssignSession against AssignCall of the recovery orchestrator.
unfoldable pub client_assign : Delivery → String → World → Assigned × World
unfolding do_post
client_assign d call_session_id w =
    let (p, w') = do_post true d (assign_call (some call_session_id)) w in (assigned_of p, w')

-- Client.EndSession against EndCall; whether it returned no error.
abbrev pub is_posted : Posted → Bool
is_posted (failed status cause) = false
is_posted (posted body) = true

unfoldable pub client_end :
    Platform → Client → Delivery → String → String → String → World → Bool × World
unfolding do_post
client_end os client d call_session_id outcome promise_date w =
    let req : EndCallRequest = record { outcome = outcome; promise_date = promise_date } in
    let (p, w') = do_post false d (end_call os client call_session_id (some req)) w in
    (is_posted p, w')
