-- ===== src/CallEnd/Already.antt =====
-- EndSession that reports that the outcome is recorded already: the session was settled before.
use vasuli.Prelude.{
  ℕ, String, ◌≡◌, ◌≢◌, refl, sym, subst, ap, ◌∙◌, inl, inr, true, false, Bool-cases, Option, none,
  some, List, [], ◌∷◌, str_eq, arith,
}
use vasuli.Exec.{Result, ok, err, outcome_already_recorded, proceed, attempt, gets, ◌>>=◌}
use vasuli.World.{World, Client, PaymentLinkResponse, driver_call}
use vasuli.Platform.{Platform}
use vasuli.Store.Tables.{RecoverySession, Database}
use vasuli.Store.Rows.{find, find_by}
use vasuli.Store.Statements.{get_session_by}
use vasuli.Store.Outcome.{OutcomeWrite, one_of, record_outcome}
use vasuli.Campaign.Outcome.{
  outcome_agreed, end_session_allowed_from, outcome_recordable_from, build_outcome_write,
  agreed_write, promised_write, refused_write, unclear_write,
}
use vasuli.Campaign.EndSession.{
  link_result, obtain_link, link_for, apply_write, end_recordable, end_found, end_session,
}
use vasuli.Lifecycle.Tables.{Keyed}
use vasuli.Lookup.{find_by-find}
use vasuli.CallEnd.Refused.{Told, record_outcome-Told}
use vasuli.CallEnd.Once.{link_for-db}

-- The session bound to the call was in a status from which no outcome may be recorded, and the
-- request has left the database as it was.
pub record Settled (call : String) (w w' : World) : Type 0 where
  pub row : RecoverySession
  pub bound : find_by (λ r. r.call_session_id) call w.sessions ≡ some row
  pub settled : outcome_recordable_from row.status ≡ false
  pub unchanged : w'.db ≡ w.db

-- What is written is about the session that was read.
about_lem :
    (os : Platform) (s : RecoverySession) (now : ℕ) (outcome promise_date : String)
    (link : Option PaymentLinkResponse) (o : OutcomeWrite)
    → build_outcome_write os s now outcome promise_date link ≡ some o
    → o.session_id ≡ s.id
unfolding build_outcome_write agreed_write promised_write refused_write unclear_write
about_lem os s now outcome promise_date none o h = ground (arith, h)
about_lem os s now outcome promise_date (some link) o h = ground (arith, h)

apply_write-ne :
    (s : RecoverySession) (o : Option OutcomeWrite) (w : World)
    → ((p : OutcomeWrite) → o ≡ some p → p.session_id ≡ s.id)
    → find s.id w.sessions ≡ some s
    → one_of end_session_allowed_from s.status ≡ true
    → (apply_write o w).0 ≢ err outcome_already_recorded
unfolding apply_write ◌>>=◌
apply_write-ne s none w same f h = cc
apply_write-ne s (some o) w same f h =
    settled (record_outcome-Told o end_session_allowed_from s w (rw (same o refl) f) h)
  where
    settled :
        Told true (record_outcome o end_session_allowed_from w).0
        → (apply_write (some o) w).0 ≢ err outcome_already_recorded
    settled (inl t) e = cc (rw t at e)
    settled (inr (message, t)) e = cc (rw t at e)

link_result-ne :
    (s : RecoverySession) (r : Result PaymentLinkResponse) (w : World)
    → (link_result s r w).0 ≢ err outcome_already_recorded
unfolding link_result attempt ◌>>=◌
link_result-ne s (ok link) w e = cc
link_result-ne s (err x) w e = cc

module _ (os : Platform) (client : Client) where
  link_for-ne :
      (outcome : String) (s : RecoverySession) (w : World)
      → (link_for os client outcome s w).0 ≢ err outcome_already_recorded
  unfolding link_for obtain_link attempt ◌>>=◌
  link_for-ne outcome s w h = elim (Bool-cases (str_eq outcome outcome_agreed)) [
    | inl t ↦ link_result-ne s _ _ (rw t at h)
    | inr f ↦ absurd (cc (rw f at h))
  ]

  end_recordable-ne :
      (outcome promise_date : String) (s : RecoverySession) (w : World)
      → find s.id w.sessions ≡ some s
      → outcome_recordable_from s.status ≡ true
      → (end_recordable os client outcome promise_date s w).0 ≢ err outcome_already_recorded
  unfolding end_recordable ◌>>=◌
  end_recordable-ne outcome promise_date s w f h =
      with_link (link_for os client outcome s w).0 (link_for os client outcome s w).1 refl
    where
      with_link :
          (r : Result (Option PaymentLinkResponse)) (t : World)
          → link_for os client outcome s w ≡ (r, t)
          → (proceed r
              (λ link. gets (λ u. u.clock) >>= λ now.
                apply_write (build_outcome_write os s now outcome promise_date link))
              t).0
            ≢ err outcome_already_recorded
      with_link (ok link) t e k =
          let same : t.db ≡ w.db =
            subst (λ (x : World). x.db ≡ w.db)
              (ap (λ (x : Result (Option PaymentLinkResponse) × World). x.1) e)
              (link_for-db os client outcome s w link
                (ap (λ (x : Result (Option PaymentLinkResponse) × World). x.0) e)) in
          apply_write-ne s (build_outcome_write os s t.clock outcome promise_date link) t
            (λ p. about_lem os s t.clock outcome promise_date link p)
            (subst (λ (b : Database). find s.id b.sessions ≡ some s) (sym same) f) h k
      with_link (err x) t e k =
          link_for-ne outcome s w
            (ap (λ (y : Result (Option PaymentLinkResponse) × World). y.0) e ∙ cc (k))

  end_found-Settled :
      (call outcome promise_date : String) (o : Option RecoverySession) (w : World)
      → Keyed w.sessions
      → find_by (λ r. r.call_session_id) call w.sessions ≡ o
      → (end_found os client outcome promise_date o w).0 ≡ err outcome_already_recorded
      → Settled call w (end_found os client outcome promise_date o w).1
  unfolding end_found
  end_found-Settled call outcome promise_date none w k f h = absurd (cc)
  end_found-Settled call outcome promise_date (some s) w k f h =
      elim (Bool-cases (outcome_recordable_from s.status)) [
        | inl t ↦ absurd (
            end_recordable-ne outcome promise_date s w (find_by-find _ call w.sessions s k f) t
              (rw t at h))
        | inr n ↦ rw n (record { row = s; bound = f; settled = n; unchanged = refl })
      ]

  -- EndSession that reports that an outcome is recorded already has found the session of the call in
  -- a status that allows none, and changed nothing. The ids of the table are distinct.
  pub end_session-Settled :
      (call outcome promise_date : String) (w : World)
      → Keyed w.sessions
      → (end_session os client call outcome promise_date w).0 ≡ err outcome_already_recorded
      → Settled call w (end_session os client call outcome promise_date w).1
  unfolding end_session get_session_by driver_call ◌>>=◌
  end_session-Settled call outcome promise_date w k h = with_faults w.faults h
    where
      again :
          (fs : List (Option String)) (w' : World)
          → Settled call (record w { faults = fs }) w'
          → Settled call w w'
      again fs w' s = record {
        row = s.row;
        bound = s.bound;
        settled = s.settled;
        unchanged = s.unchanged;
      }

      found :
          (fs : List (Option String))
          → (end_found os client outcome promise_date
              (find_by (λ r. r.call_session_id) call w.sessions)
              (record w { faults = fs })).0
            ≡ err outcome_already_recorded
          → Settled call w
              (end_found os client outcome promise_date
                (find_by (λ r. r.call_session_id) call w.sessions)
                (record w { faults = fs })).1
      found fs e =
          again fs _
            (end_found-Settled call outcome promise_date _ (record w { faults = fs }) k refl e)

      with_faults :
          (fs : List (Option String))
          → (end_session os client call outcome promise_date (record w { faults = fs })).0
            ≡ err outcome_already_recorded
          → Settled call w
              (end_session os client call outcome promise_date (record w { faults = fs })).1
      with_faults [] e = found [] e
      with_faults (none ∷ fs) e = found fs e
      with_faults (some cause ∷ fs) e = absurd (cc)
