-- ===== src/Voice/Bridge.antt =====
-- The gateway and the recovery orchestrator together, over HTTP: a call's assignment and its report.
use vasuli.Prelude.{
  String, ◌≡◌, ◌≢◌, ◌∙◌, refl, subst, sym, ap, inl, inr, true, false, Bool-cases, Option, none,
  some, arith, str_eq,
}
use vasuli.Exec.{Result, ok, err, ◌>>=◌}
use vasuli.Exec.Inversion.{bind-Between}
use vasuli.World.{World, driver_call}
use vasuli.Store.Tables.{RecoverySession}
use vasuli.Store.Rows.{update}
use vasuli.Store.Statements.{now_sql, insert_audit_log}
use vasuli.Store.Assign.{claim, assign_next_pending}
use vasuli.Campaign.Sessions.{log_assigned, assign_session}
use vasuli.Lifecycle.Tables.{Keyed}
use vasuli.Lifecycle.Assign.{IsNext}
use vasuli.Scheduling.Choice.{Picked, assign_next_pending-Picked}
use vasuli.Api.Response.{session_context, write_error}
use vasuli.Api.Calls.{assigned, assign_call}
use vasuli.Voice.Session.{attach, transition_to, allows, SessionState-discrete}
use vasuli.Voice.Call.{Call, attached}
use vasuli.Voice.Recovery.{
  Delivery, request_lost, reply_lost, reply_garbled, delivered, Assigned, context,
  no_pending_session, assign_failed, client_assign, do_post, SessionContext, answer_of, assigned_of,
  context_of,
}
use vasuli.Voice.Gateway.{
  AgentProfile, Server, start_session, opened, resolve_profile, open_call, profile_for,
}

abbrev state_of : {A : Type 0} → Result A × World → World
state_of r = r.1

abbrev result_of : {A : Type 0} → Result A × World → Result A
result_of r = r.0

-- An assignment by AssignSession that handed out `s`.
pub record Claims (call : String) (w w' : World) (s : RecoverySession) : Type 0 where
  pub row : RecoverySession
  pub next : IsNext w.db (now_sql w) row
  pub claimed : s ≡ claim call (now_sql w) row
  pub table : w'.sessions ≡ update row.id (claim call (now_sql w)) w.sessions

log_assigned-same :
    (call : String) (o : Option RecoverySession) (w : World) (s : RecoverySession)
    → (log_assigned call o w).0 ≡ ok (some s)
    → (o ≡ some s) × ((log_assigned call o w).1.sessions ≡ w.sessions)
unfolding log_assigned insert_audit_log driver_call ◌>>=◌
log_assigned-same call none w s h = absurd (cc)
log_assigned-same call (some r) w s h = ground arith

pub assign_session-Claims :
    (call : String) (w : World) (s : RecoverySession)
    → Keyed w.sessions
    → (assign_session call w).0 ≡ ok (some s)
    → Claims call w (assign_session call w).1 s
unfolding assign_session
assign_session-Claims call w s k h =
    let m = bind-Between (assign_next_pending call) (log_assigned call) w (some s) h in
    let (named, same) = log_assigned-same call m.value m.state s m.rest in
    let p =
      subst (λ t. Picked call w t s) (ap state_of m.first)
        (assign_next_pending-Picked call w s k (ap result_of m.first ∙ ap ok named)) in
    rw m.final (record { row = p.row; next = p.next; claimed = p.result; table = same ∙ p.table })

-- A call that runs with an assigned session.
pub record RunsFor (s : Server) (call : String) (w w' : World) (p : AgentProfile) : Type 0 where
  pub row : RecoverySession
  pub claims : Claims call w w' row
  pub prompt : p.system_prompt ≡ row.system_prompt
  pub prompted : str_eq p.system_prompt "" ≡ false
  pub own_name : p.name ≡ s.profile.name
  pub own_description : p.description ≡ s.profile.description

-- The session that the client was handed, and that the orchestrator claimed.
record Handed (call : String) (w w' : World) (c : SessionContext) : Type 0 where
  row : RecoverySession
  ran : assign_session call w ≡ (ok (some row), w')
  prompt : c.system_prompt ≡ row.system_prompt
  prompted : str_eq c.system_prompt "" ≡ false

answer-Handed :
    (d : Delivery) (call : String) (r : Result (Option RecoverySession)) (w w' : World)
    (c : SessionContext)
    → assign_session call w ≡ (r, w')
    → assigned_of (answer_of true d (assigned r)) ≡ context c
    → Handed call w w' c
answer-Handed (request_lost cause) call r w w' c e h = absurd (cc)
answer-Handed (reply_lost cause) call r w w' c e h = absurd (cc)
answer-Handed reply_garbled call (ok (some row)) w w' c e h = absurd (cc)
answer-Handed reply_garbled call (ok none) w w' c e h = absurd (cc)
answer-Handed reply_garbled call (err x) w w' c e h = absurd (cc)
answer-Handed delivered call (ok none) w w' c e h = absurd (cc)
answer-Handed delivered call (err x) w w' c e h = absurd (cc)
answer-Handed delivered call (ok (some row)) w w' c e h =
    elim (Bool-cases (str_eq row.system_prompt "")) [
      | inl t ↦ absurd (cc (rw t at h))
      | inr f ↦
          let same : context_of (session_context row) ≡ c = cc (rw f at h) in
          record { row = row; ran = e; prompt = cc (same); prompted = rw (← same) f }
    ]

bad_request-ne-context :
    (d : Delivery) (c : SessionContext)
    → assigned_of (answer_of true d (write_error 400 "call_session_id is required")) ≢ context c
bad_request-ne-context (request_lost cause) c h = cc
bad_request-ne-context (reply_lost cause) c h = cc
bad_request-ne-context reply_garbled c h = cc
bad_request-ne-context delivered c h = cc

assign_call-Handed :
    (d : Delivery) (call : String) (w : World) (c : SessionContext)
    → assigned_of (answer_of true d (assign_call (some call) w).0) ≡ context c
    → Handed call w (assign_call (some call) w).1 c
unfolding assign_call
assign_call-Handed d call w c h = elim (Bool-cases (str_eq call "")) [
  | inl t ↦ absurd (bad_request-ne-context d c (rw t at h))
  | inr f ↦ rw f (
      answer-Handed d call (assign_session call w).0 w (assign_session call w).1 c refl (rw f at h))
]

client_assign-Handed :
    (d : Delivery) (call : String) (w : World) (c : SessionContext)
    → (client_assign d call w).0 ≡ context c
    → Handed call w (client_assign d call w).1 c
unfolding client_assign do_post
client_assign-Handed (request_lost cause) call w c h = absurd (cc)
client_assign-Handed (reply_lost cause) call w c h =
    assign_call-Handed (reply_lost cause) call w c h
client_assign-Handed reply_garbled call w c h = assign_call-Handed reply_garbled call w c h
client_assign-Handed delivered call w c h = assign_call-Handed delivered call w c h

module _ (s : Server) (call : String) (d : Delivery) where
  profile-RunsFor :
      (a : Assigned) (w : World)
      → Keyed w.sessions
      → client_assign d call w ≡ (a, (client_assign d call w).1)
      → (profile_for s a).1 ≡ true
      → RunsFor s call w (client_assign d call w).1 (profile_for s a).0
  profile-RunsFor no_pending_session w k e t = absurd (cc)
  profile-RunsFor (assign_failed cause) w k e t = absurd (cc)
  profile-RunsFor (context c) w k e t =
      let h = client_assign-Handed d call w c (ap (λ (x : Assigned × World). x.0) e) in
      record {
        row = h.row;
        claims =
            subst (λ u. Claims call w u h.row) (ap state_of h.ran)
              (assign_session-Claims call w h.row k (ap result_of h.ran));
        prompt = h.prompt;
        prompted = h.prompted;
        own_name = refl;
        own_description = refl;
      }

  -- A call that starts to run with an assigned session runs for exactly one customer: the orchestrator
  -- has claimed for this call a session that may be called now, and changed no other row; and the
  -- agent speaks with the prompt of that session, which is not empty, under its own name and
  -- description. This holds whatever happens to the request on the way and whatever the driver does.
  -- The ids of the table are distinct.
  pub open_call-RunsFor :
      (w : World) (p : AgentProfile) (c : Call)
      → Keyed w.sessions
      → (open_call s (start_session call) true d true w).0 ≡ opened p c
      → c.assigned ≡ true
      → (c ≡ attached true) × RunsFor s call w (open_call s (start_session call) true d true w).1 p
  unfolding open_call resolve_profile attach transition_to allows SessionState-discrete
  open_call-RunsFor w p c k h t = elim (Bool-cases s.recovery) [
    | inl on ↦
        let e : opened (profile_for s (client_assign d call w).0).0
              (attached (profile_for s (client_assign d call w).0).1)
            ≡ opened p c =
          rw on at h in
        let a = (client_assign d call w).0 in
        let same_call : attached (profile_for s a).1 ≡ c = cc e in
        let flag : (profile_for s a).1 ≡ true = ap (λ (x : Call). x.assigned) same_call ∙ t in
        let same_profile : (profile_for s a).0 ≡ p = cc e in
        let world : (resolve_profile s d call w).1 ≡ (client_assign d call w).1 = rw on refl in
        let runs =
          subst (RunsFor s call w (client_assign d call w).1) same_profile
            (profile-RunsFor a w k refl flag) in
        (sym same_call ∙ ap attached flag, subst (λ u. RunsFor s call w u p) (sym world) runs)
    | inr off ↦ absurd (cc (rw off at h))
  ]
