-- ===== src/Voice/Reports.antt =====
-- The report at the end of a call, and the assignments that are never reported.
use vasuli.Prelude.{
  String, ◌≡◌, ◌∙◌, ◌⊎◌, refl, subst, sym, ap, inl, inr, true, false, [], ◌∷◌, str_eq,
}
use vasuli.Exec.{Result, ok, err, outcome_already_recorded}
use vasuli.World.{World, Client}
use vasuli.Platform.{Platform}
use vasuli.Campaign.EndSession.{end_session}
use vasuli.CallEnd.Once.{Ended, end_session-Ended}
use vasuli.CallEnd.Already.{Settled, end_session-Settled}
use vasuli.Lifecycle.Tables.{Keyed}
use vasuli.Api.Calls.{ended, end_call}
use vasuli.Voice.Call.{Call, attached, returned}
use vasuli.Voice.Steps
use vasuli.Voice.Outcome.{Honest, returned-Reported}
use vasuli.Voice.Recovery.{
  Delivery, request_lost, reply_lost, reply_garbled, delivered, client_end, do_post, answer_of,
  is_posted,
}

-- What a report that succeeded leaves in the orchestrator's database: it recorded the outcome, or the
-- session of the call was settled before it came.
abbrev pub Stands : Platform → Client → String → String → String → World → World → Type 0
Stands os client call o p w w' = Ended os client call o p w w' ⊎ Settled call w w'

module _ (os : Platform) (client : Client) (call o p : String) where
  settled :
      (w w' : World)
      → Keyed w.sessions
      → end_session os client call o p w ≡ (err outcome_already_recorded, w')
      → Stands os client call o p w w'
  settled w w' k e = inr (
      subst (Settled call w) (ap (λ (x : Result Unit × World). x.1) e)
        (end_session-Settled os client call o p w k (ap (λ (x : Result Unit × World). x.0) e)))

  answered-Stands :
      (d : Delivery) (r : Result (Unit {0})) (w w' : World)
      → Keyed w.sessions
      → end_session os client call o p w ≡ (r, w')
      → is_posted (answer_of false d (ended r)) ≡ true
      → Stands os client call o p w w'
  answered-Stands (request_lost cause) r w w' k e h = absurd (cc)
  answered-Stands (reply_lost cause) r w w' k e h = absurd (cc)
  answered-Stands reply_garbled (ok tt) w w' k e h = inl (
      subst (Ended os client call o p w) (ap (λ (x : Result Unit × World). x.1) e)
        (end_session-Ended os client call o p w (ap (λ (x : Result Unit × World). x.0) e)))
  answered-Stands reply_garbled (err outcome_already_recorded) w w' k e h = settled w w' k e
  answered-Stands reply_garbled (err x) w w' k e h = absurd (cc)
  answered-Stands delivered (ok tt) w w' k e h = inl (
      subst (Ended os client call o p w) (ap (λ (x : Result Unit × World). x.1) e)
        (end_session-Ended os client call o p w (ap (λ (x : Result Unit × World). x.0) e)))
  answered-Stands delivered (err outcome_already_recorded) w w' k e h = settled w w' k e
  answered-Stands delivered (err x) w w' k e h = absurd (cc)

  client_end-Stands :
      (d : Delivery) (w : World)
      → Keyed w.sessions
      → str_eq call "" ≡ false
      → (client_end os client d call o p w).0 ≡ true
      → Stands os client call o p w (client_end os client d call o p w).1
  unfolding client_end do_post end_call
  client_end-Stands (request_lost cause) w k n h = absurd (cc)
  client_end-Stands (reply_lost cause) w k n h = absurd (cc)
  client_end-Stands reply_garbled w k n h =
      rw n
        (answered-Stands reply_garbled (end_session os client call o p w).0 w _ k refl (rw n at h))
  client_end-Stands delivered w k n h =
      rw n (answered-Stands delivered (end_session os client call o p w).0 w _ k refl (rw n at h))

  -- From the engine to the database: for a call that ran with an assigned session and has returned,
  -- the outcome that it reported is one that the engine delivered during the call, or UNCLEAR; and if
  -- its report to the recovery orchestrator succeeded, then either the one transaction of EndSession
  -- has recorded that outcome for the session bound to this call, or that session was already in a
  -- status from which no outcome may be recorded (another outcome or a payment came first, say) and
  -- the report has changed nothing in the database. The goroutines may interleave in any order; the
  -- ids of the table are distinct.
  pub returned-Stands :
      (d : Delivery) (c : Call) (w : World)
      → Keyed w.sessions
      → Steps.Reach (attached true) c
      → c.main ≡ returned
      → c.reports ≡ (o, p) ∷ []
      → str_eq call "" ≡ false
      → (client_end os client d call o p w).0 ≡ true
      → Honest o p c.classified × Stands os client call o p w (client_end os client d call o p w).1
  returned-Stands d c w k r e q n h =
      let (a, b, same, honest) = returned-Reported true c r e in
      let one : (a, b) ∷ [] ≡ (o, p) ∷ [] = sym same ∙ q in
      let same_pair : (a, b) ≡ (o, p) = cc one in
      (
        subst (λ (x : String × String). Honest x.0 x.1 c.classified) same_pair honest,
        client_end-Stands d w k n h,
      )
