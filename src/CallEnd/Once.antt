-- ===== src/CallEnd/Once.antt =====
-- EndSession: what a call that succeeds has done, and that it is done once.
use Prim.Native.String.{◌++◌ as ◌+s◌}
use vasuli.Prelude.{
  String, ◌≡◌, ◌≢◌, refl, sym, subst, ap, ◌∙◌, ◌⊎◌, inl, inr, Bool, true, false, Bool-cases, Option,
  none, some, List, [], ◌∷◌, arith, eq_iff, if◌then◌else◌, str_eq,
}
use vasuli.Exec.{Exec, Result, ok, err, outcome_already_recorded, pure, raise, attempt, gets, ◌>>=◌}
use vasuli.Exec.Inversion.{bind-Between}
use vasuli.World.{World, Client, PaymentLinkResponse, driver_call}
use vasuli.Platform.{Platform}
use vasuli.Store.Tables.{RecoverySession}
use vasuli.Store.Rows.{find_by}
use vasuli.Store.Statements.{get_session_by, get_session_by_call_session_id}
use vasuli.Store.Outcome.{OutcomeWrite, record_outcome}
use vasuli.Campaign.Outcome.{
  outcome_agreed, end_session_allowed_from, build_outcome_write, outcome_recordable_from,
}
use vasuli.Campaign.EndSession.{
  link_request, link_result, link_for, apply_write, end_recordable, end_found, end_session,
}
use vasuli.Lookup.{get_session_by-Looked}
use vasuli.CallEnd.Recorded.{Recorded, record_outcome-Recorded}

abbrev state_of : {A : Type 0} → Result A × World → World
state_of r = r.1

abbrev result_of : {A : Type 0} → Result A × World → Result A
result_of r = r.0

-- The link that an outcome comes with: for AGREED the one that the provider answered to the request for
-- the session's amount, product and customer, and none for every other outcome.
abbrev pub Obtained :
    Client → String → RecoverySession → World → World → Option PaymentLinkResponse → Type 0
Obtained client outcome row before at link =
    ((outcome ≡ "AGREED")
      × (response : PaymentLinkResponse) × (link ≡ some response)
      × (client.create_payment_link
            (record {
              amount_paise = row.outstanding_paise;
              description = "Payment recovery, " +s row.product_name;
              customer_name = row.customer_name;
            })
            before
          ≡ (ok response, at)))
    ⊎ ((outcome ≢ "AGREED") × (link ≡ none) × (at ≡ before))

-- What a successful EndSession has done. `write` is what buildOutcomeWrite makes of the session as
-- it was, at a moment when the database was still the one of before; `recorded` says how it was
-- written.
pub record Ended (os : Platform) (client : Client) (call outcome promise_date : String)
    (w w' : World) : Type 0 where
  pub row : RecoverySession
  pub bound : find_by (λ r. r.call_session_id) call w.sessions ≡ some row
  pub recordable : outcome_recordable_from row.status ≡ true
  pub link : Option PaymentLinkResponse
  pub faults : List (Option String)
  pub at : World
  pub obtained : Obtained client outcome row (record w { faults = faults }) at link
  pub same_db : at.db ≡ w.db
  pub write : OutcomeWrite
  pub built : build_outcome_write os row at.clock outcome promise_date link ≡ some write
  pub recorded : Recorded write end_session_allowed_from at w'

-- An EndSession that has recorded nothing.
abbrev pub Unrecorded : World → Result (Unit {0}) × World → Type 0
Unrecorded w r =
    (r.1.db ≡ w.db)
    × (r.1.link_requests ≡ w.link_requests)
    × (r.0 ≢ ok tt)
    × ((r.0 ≡ err outcome_already_recorded) ⊎ (w.faults ≢ []))

record Applied (o : Option OutcomeWrite) (w w' : World) : Type 0 where
  write : OutcomeWrite
  built : o ≡ some write
  recorded : Recorded write end_session_allowed_from w w'

apply_write-Applied :
    (o : Option OutcomeWrite) (w : World)
    → (apply_write o w).0 ≡ ok tt
    → Applied o w (apply_write o w).1
unfolding apply_write
apply_write-Applied none w h = absurd (cc)
apply_write-Applied (some o) w h =
    let m = bind-Between (record_outcome o end_session_allowed_from) settled w tt h in
    applied m.value m.state m.first m.rest m.final
  where
    settled : Bool → Exec World Unit
    settled b = if b then pure tt else raise outcome_already_recorded

    applied :
        (b : Bool) (t : World)
        → record_outcome o end_session_allowed_from w ≡ (ok b, t)
        → (settled b t).0 ≡ ok tt
        → (apply_write (some o) w).1 ≡ (settled b t).1
        → Applied (some o) w (apply_write (some o) w).1
    applied true t e k f =
        rw (f, ← ap state_of e)
          (record {
            write = o;
            built = refl;
            recorded = record_outcome-Recorded o end_session_allowed_from w (ap result_of e);
          })
    applied false t e k f = absurd (cc)

link_result-db :
    (s : RecoverySession) (r : Result PaymentLinkResponse) (w : World)
    (l : Option PaymentLinkResponse)
    → (link_result s r w).0 ≡ ok l
    → (link_result s r w).1 ≡ w
unfolding link_result attempt ◌>>=◌
link_result-db s (ok link) w l h = refl
link_result-db s (err e) w l h = absurd (cc)

stamped-Applied :
    (os : Platform) (outcome promise_date : String) (s : RecoverySession)
    (link : Option PaymentLinkResponse) (w : World)
    → ((gets (λ t. t.clock) >>= λ now.
          apply_write (build_outcome_write os s now outcome promise_date link))
        w).0
      ≡ ok tt
    → Applied
        (build_outcome_write os s w.clock outcome promise_date link)
        w
        ((gets (λ t. t.clock) >>= λ now.
            apply_write (build_outcome_write os s now outcome promise_date link))
          w).1
unfolding ◌>>=◌
stamped-Applied os outcome promise_date s link w h = apply_write-Applied _ w h

module _ (os : Platform) (client : Client) where
  link_result-ok :
      (s : RecoverySession) (r : Result PaymentLinkResponse) (w : World)
      (l : Option PaymentLinkResponse)
      → (link_result s r w).0 ≡ ok l
      → (response : PaymentLinkResponse) × (r ≡ ok response)
        × (l ≡ some response)
        × ((link_result s r w).1 ≡ w)
  unfolding link_result attempt ◌>>=◌
  link_result-ok s (ok link) w l h = (link, refl, cc, refl)
  link_result-ok s (err e) w l h = absurd (cc)

  link_for-Obtained :
      (outcome : String) (s : RecoverySession) (w : World) (l : Option PaymentLinkResponse)
      → (link_for os client outcome s w).0 ≡ ok l
      → Obtained client outcome s w (link_for os client outcome s w).1 l
  unfolding link_for attempt ◌>>=◌
  link_for-Obtained outcome s w l h = elim (Bool-cases (str_eq outcome outcome_agreed)) [
    | inl t ↦
        let asked = client.create_payment_link (link_request s) w in
        let agreed : outcome ≡ "AGREED" = ground (arith, t, eq_iff outcome "AGREED") in
        let (response, answered, given, stays) = link_result-ok s asked.0 asked.1 l (rw t at h) in
        rw t (
          inl (
            agreed,
            response,
            given,
            ap (λ r. (r, asked.1)) answered ∙ ap (λ x. (ok response, x)) (sym stays),
          ))
    | inr f ↦
        let other : outcome ≢ "AGREED" = λ e. ground (arith, f, e, eq_iff outcome "AGREED") in
        rw f (inr (other, cc (rw f at h), refl))
  ]

  pub link_for-db :
      (outcome : String) (s : RecoverySession) (w : World) (l : Option PaymentLinkResponse)
      → (link_for os client outcome s w).0 ≡ ok l
      → (link_for os client outcome s w).1.db ≡ w.db
  unfolding link_for attempt ◌>>=◌
  link_for-db outcome s w l h = elim (Bool-cases (str_eq outcome outcome_agreed)) [
    | inl t ↦
        let asked = client.create_payment_link (link_request s) w in
        rw t (
          ap (λ (x : World). x.db) (link_result-db s asked.0 asked.1 l (rw t at h))
          ∙ client.keeps_db _ w)
    | inr f ↦ rw f
  ]

  end_recordable-Ended :
      (call outcome promise_date : String) (s : RecoverySession) (w : World)
      → find_by (λ r. r.call_session_id) call w.sessions ≡ some s
      → outcome_recordable_from s.status ≡ true
      → (end_recordable os client outcome promise_date s w).0 ≡ ok tt
      → Ended os client call outcome promise_date w
          (end_recordable os client outcome promise_date s w).1
  unfolding end_recordable
  end_recordable-Ended call outcome promise_date s w f t h =
      let m = bind-Between (link_for os client outcome s) _ w tt h in
      let same : m.state.db ≡ w.db =
        subst (λ (x : World). x.db ≡ w.db) (ap state_of m.first)
          (link_for-db outcome s w m.value (ap result_of m.first)) in
      let done = stamped-Applied os outcome promise_date s m.value m.state m.rest in
      rw m.final (record {
        row = s;
        bound = f;
        recordable = t;
        link = m.value;
        faults = w.faults;
        obtained =
            subst (λ x. Obtained client outcome s w x m.value) (ap state_of m.first)
              (link_for-Obtained outcome s w m.value (ap result_of m.first));
        at = m.state;
        same_db = same;
        write = done.write;
        built = done.built;
        recorded = done.recorded;
      })

  end_found-Ended :
      (call outcome promise_date : String) (o : Option RecoverySession) (w : World)
      → find_by (λ r. r.call_session_id) call w.sessions ≡ o
      → (end_found os client outcome promise_date o w).0 ≡ ok tt
      → Ended os client call outcome promise_date w (end_found os client outcome promise_date o w).1
  unfolding end_found
  end_found-Ended call outcome promise_date none w f h = absurd (cc)
  end_found-Ended call outcome promise_date (some s) w f h =
      elim (Bool-cases (outcome_recordable_from s.status)) [
        | inl t ↦ rw t (end_recordable-Ended call outcome promise_date s w f t (rw t at h))
        | inr n ↦ absurd (cc (rw n at h))
      ]

  Ended-faults :
      (call outcome promise_date : String) (w w' : World) (fs : List (Option String))
      → Ended os client call outcome promise_date (record w { faults = fs }) w'
      → Ended os client call outcome promise_date w w'
  Ended-faults call outcome promise_date w w' fs e = record {
    row = e.row;
    bound = e.bound;
    recordable = e.recordable;
    link = e.link;
    faults = e.faults;
    obtained = e.obtained;
    at = e.at;
    same_db = e.same_db;
    write = e.write;
    built = e.built;
    recorded = e.recorded;
  }

  -- EndSession that succeeds has found the session bound to the call in a status from which an
  -- outcome may be recorded, and has written exactly what buildOutcomeWrite makes of that session,
  -- the reported outcome and the link: one row changed, its audit rows added, in one transaction on
  -- the database as it was when the request came. For AGREED the link is the one that the provider
  -- answered to the request for the session's amount, product and customer, and the moment is that
  -- of the answer; for every other outcome no link was asked for. This holds for every provider
  -- client and every pattern of failures.
  pub end_session-Ended :
      (call outcome promise_date : String) (w : World)
      → (end_session os client call outcome promise_date w).0 ≡ ok tt
      → Ended os client call outcome promise_date w
          (end_session os client call outcome promise_date w).1
  unfolding end_session
  end_session-Ended call outcome promise_date w h =
      let m = bind-Between (get_session_by_call_session_id call) _ w tt h in
      let l = get_session_by-Looked _ call w m.value m.state m.first in
      rw (m.final, l.state)
        (Ended-faults call outcome promise_date w _ l.faults
          (end_found-Ended call outcome promise_date m.value _ l.found (rw l.state at m.rest)))

  end_found_settled :
      (outcome promise_date : String) (w : World) (r : RecoverySession)
      → outcome_recordable_from r.status ≡ false
      → end_found os client outcome promise_date (some r) w ≡ (err outcome_already_recorded, w)
  unfolding end_found
  end_found_settled outcome promise_date w r n = rw n refl

  -- A call whose session is settled: EndSession changes nothing in the database, asks the payment
  -- provider for nothing, and does not report success: it reports that the outcome is recorded
  -- already, unless failures of the driver are to come.
  pub end_session_settled :
      (call outcome promise_date : String) (w : World) (r : RecoverySession)
      → find_by (λ r. r.call_session_id) call w.sessions ≡ some r
      → outcome_recordable_from r.status ≡ false
      → Unrecorded w (end_session os client call outcome promise_date w)
  unfolding end_session get_session_by driver_call ◌>>=◌
  end_session_settled call outcome promise_date w r f n = with_faults w.faults
    where
      with_faults :
          (fs : List (Option String))
          → Unrecorded
              (record w { faults = fs })
              (end_session os client call outcome promise_date (record w { faults = fs }))
      with_faults [] =
          rw (f, end_found_settled outcome promise_date (record w { faults = [] }) r n)
            (refl, refl, cc, inl refl)
      with_faults (none ∷ fs) =
          rw (f, end_found_settled outcome promise_date (record w { faults = fs }) r n)
            (refl, refl, cc, inr cc)
      with_faults (some cause ∷ fs) = (refl, refl, cc, inr cc)
