-- ===== src/Voice/Stranded.antt =====
-- The assignments that the gateway never learns of, or drops when the engine cannot be started.
use vasuli.Prelude.{◌≡◌, ◌∙◌, ap, ℕ, String, Bool, true, false, some, str_eq, arith}
use vasuli.Exec.{ok}
use vasuli.World.{World}
use vasuli.Store.Tables.{RecoverySession}
use vasuli.Store.Schedule.{still_contactable}
use vasuli.Store.Statements.{now_sql}
use vasuli.Store.Assign.{claim}
use vasuli.Campaign.Sessions.{assign_session}
use vasuli.Lifecycle.Tables.{Keyed}
use vasuli.Api.Calls.{assigned, assign_call}
use vasuli.Voice.Session.{new_session, attach, transition_to, allows, SessionState-discrete}
use vasuli.Voice.Call.{attached}
use vasuli.Voice.Recovery.{
  Delivery, request_lost, reply_lost, reply_garbled, delivered, client_assign, do_post,
}
use vasuli.Voice.Gateway.{
  Server, start_session, send_start, Opening, opened, refused, resolve_profile, open_call,
}
use vasuli.Voice.Bridge.{Claims, assign_session-Claims}

-- The gateway does not hear of the session that it is assigned, or the engine refuses START_SESSION.
pub data Drops : Delivery → Bool → Type 0 where
  unanswered : {cause : String} {ok : Bool} → Drops (reply_lost cause) ok
  garbled : {ok : Bool} → Drops reply_garbled ok
  unstarted : Drops delivered false

-- No report of the call can follow: it is refused, or it runs without an assigned session.
pub data Unreported : Opening → Type 0 where
  not_opened : {why : String} → Unreported (refused why)
  unassigned : (s : Server) → Unreported (opened s.profile (attached false))

claim-closed :
    (call : String) (now : ℕ) (row : RecoverySession)
    → still_contactable (claim call now row) ≡ false
unfolding still_contactable claim
claim-closed call now row = ground arith

-- What AssignCall answers is for a session that it claimed.
assign_call_ran :
    (call : String) (w : World) (r : RecoverySession)
    → str_eq call "" ≡ false
    → (assign_session call w).0 ≡ ok (some r)
    → assign_call (some call) w ≡ (assigned (ok (some r)), (assign_session call w).1)
unfolding assign_call
assign_call_ran call w r n h = rw n (ap (λ x. (assigned x, (assign_session call w).1)) h)

send_start-Unreported :
    (s : Server) (started : Bool)
    → Unreported (send_start started s.profile false (attach new_session))
unfolding attach transition_to allows SessionState-discrete
send_start-Unreported s true = unassigned s
send_start-Unreported s false = not_opened

module _ (s : Server) (call : String) where
  -- A customer who is claimed and never called: when the orchestrator has assigned a session, and then
  -- its answer is lost or does not decode, or the engine refuses START_SESSION, the session stays
  -- claimed for the call and may not be called again, while no report of the call follows: the gateway
  -- refuses the call without reporting an outcome, or runs it under its own profile as a call without
  -- a session. The ids of the table are distinct.
  pub open_call-stranded :
      (d : Delivery) (started : Bool) (w : World) (r : RecoverySession)
      → Keyed w.sessions
      → s.recovery ≡ true
      → str_eq call "" ≡ false
      → (assign_session call w).0 ≡ ok (some r)
      → Drops d started
      → Unreported (open_call s (start_session call) true d started w).0
        × Claims call w (open_call s (start_session call) true d started w).1 r
        × (still_contactable r ≡ false)
  unfolding open_call resolve_profile client_assign do_post attach transition_to allows
      SessionState-discrete
  open_call-stranded (reply_lost cause) started w r k on n h unanswered =
      let c = assign_session-Claims call w r k h in
      let closed = ap still_contactable c.claimed ∙ claim-closed call (now_sql w) c.row in
      rw on (rw (assign_call_ran call w r n h) (send_start-Unreported s started, c, closed))
  open_call-stranded reply_garbled started w r k on n h garbled =
      let c = assign_session-Claims call w r k h in
      let closed = ap still_contactable c.claimed ∙ claim-closed call (now_sql w) c.row in
      rw on (rw (assign_call_ran call w r n h) (send_start-Unreported s started, c, closed))
  open_call-stranded delivered false w r k on n h unstarted =
      let c = assign_session-Claims call w r k h in
      let closed = ap still_contactable c.claimed ∙ claim-closed call (now_sql w) c.row in
      rw on (rw (assign_call_ran call w r n h) (not_opened, c, closed))
  open_call-stranded (request_lost cause) started w r k on n h x = elim x [ ]
  open_call-stranded delivered true w r k on n h x = elim x [ ]
