-- ===== src/Concurrency/Alone.antt =====
-- The calls of one request that runs alone are EndSession.
use vasuli.Prelude.{
  ℕ, zero, suc, String, ◌≡◌, refl, inl, inr, Bool, true, false, Bool-cases, Option, none, some,
  str_eq, if◌then◌else◌,
}
use vasuli.Exec.{Result, ok, err, proceed, Exec, attempt, gets, ◌>>=◌}
use vasuli.World.{World, PaymentLinkResponse, Client}
use vasuli.Platform.{Platform}
use vasuli.Store.Tables.{RecoverySession}
use vasuli.Store.Statements.{get_session_by_call_session_id}
use vasuli.Store.Outcome.{OutcomeWrite, record_outcome}
use vasuli.Campaign.Outcome.{
  outcome_agreed, end_session_allowed_from, outcome_recordable_from, build_outcome_write,
}
use vasuli.Campaign.EndSession.{
  link_request, link_result, obtain_link, link_for, apply_write, end_recordable, end_found,
  end_session,
}
use vasuli.Concurrency.{
  Stage, looking, asking, noting, recording, recorded, stopped, built, committed, found, linked,
  advances,
}

abbrev pub result_of : Stage → Option (Result (Unit {0}))
result_of (recorded o) = some (ok tt)
result_of (stopped e) = some (err e)
result_of (looking call outcome promise_date) = none
result_of (asking outcome promise_date s) = none
result_of (noting s e) = none
result_of (recording o) = none

-- The request has returned what the action returns, in the world that it leaves.
abbrev Agrees : Stage × World → Result (Unit {0}) × World → Type 0
Agrees t r = (result_of t.0 ≡ some r.0) × (t.1 ≡ r.1)

module _ (os : Platform) (client : Client) where
  record_outcome-Agrees :
      (o : OutcomeWrite) (r : Result Bool) (w w' : World)
      → record_outcome o end_session_allowed_from w ≡ (r, w')
      → Agrees (committed o r, w') (apply_write (some o) w)
  unfolding apply_write ◌>>=◌
  record_outcome-Agrees o (ok true) w w' e = rw e (refl, refl)
  record_outcome-Agrees o (ok false) w w' e = rw e (refl, refl)
  record_outcome-Agrees o (err x) w w' e = rw e (refl, refl)

  -- A request that has returned stays as it is.
  finished-Agrees :
      (n : ℕ) (t : Stage) (w : World) (r : Result (Unit {0}) × World)
      → Agrees (t, w) r
      → Agrees (advances os client n t w) r
  unfolding advances
  finished-Agrees zero t w r a = a
  finished-Agrees (suc n) (recorded o) w r a = finished-Agrees n (recorded o) w r a
  finished-Agrees (suc n) (stopped e) w r a = finished-Agrees n (stopped e) w r a
  finished-Agrees (suc n) (looking call outcome promise_date) w r a = absurd (cc (a.0))
  finished-Agrees (suc n) (asking outcome promise_date s) w r a = absurd (cc (a.0))
  finished-Agrees (suc n) (noting s e) w r a = absurd (cc (a.0))
  finished-Agrees (suc n) (recording o) w r a = absurd (cc (a.0))

  built-Agrees :
      (n : ℕ) (o : Option OutcomeWrite) (w : World)
      → Agrees (advances os client (suc n) (built o) w) (apply_write o w)
  unfolding advances apply_write
  built-Agrees n none w = finished-Agrees n _ w _ (refl, refl)
  built-Agrees n (some o) w =
      finished-Agrees n _ _ _
        (record_outcome-Agrees o (record_outcome o end_session_allowed_from w).0 w _ refl)

  -- The rest of EndSession, from the link on.
  abbrev stamped :
      String → String → RecoverySession → Option PaymentLinkResponse → Exec World (Unit {0})
  stamped outcome promise_date s link = gets (λ w. w.clock) >>= λ now.
      apply_write (build_outcome_write os s now outcome promise_date link)

  linked-Agrees :
      (n : ℕ) (outcome promise_date : String) (s : RecoverySession) (r : Result PaymentLinkResponse)
      (w : World)
      → Agrees
          (advances os client (suc n) (linked os client outcome promise_date s w.clock r) w)
          ((link_result s r >>= stamped outcome promise_date s) w)
  unfolding ◌>>=◌ link_result advances attempt
  linked-Agrees n outcome promise_date s (ok link) w = built-Agrees n _ w
  linked-Agrees n outcome promise_date s (err e) w = finished-Agrees n _ _ _ (refl, refl)

  recordable-Agrees :
      (n : ℕ) (outcome promise_date : String) (s : RecoverySession) (w : World)
      → Agrees
          (advances os client
            (suc (suc n))
            (if str_eq outcome outcome_agreed
              then asking outcome promise_date s
              else built (build_outcome_write os s w.clock outcome promise_date none))
            w)
          (end_recordable os client outcome promise_date s w)
  unfolding end_recordable link_for obtain_link attempt ◌>>=◌ advances
  recordable-Agrees n outcome promise_date s w = elim (Bool-cases (str_eq outcome outcome_agreed)) [
    | inl t ↦
        let asked = client.create_payment_link (link_request s) w in
        rw t (linked-Agrees n outcome promise_date s asked.0 asked.1)
    | inr f ↦
        rw f (built-Agrees (suc n) (build_outcome_write os s w.clock outcome promise_date none) w)
  ]

  found-Agrees :
      (n : ℕ) (outcome promise_date : String) (r : Option RecoverySession) (w : World)
      → Agrees
          (advances os client (suc (suc n)) (found os client outcome promise_date w.clock (ok r)) w)
          (end_found os client outcome promise_date r w)
  unfolding end_found
  found-Agrees n outcome promise_date none w = finished-Agrees (suc (suc n)) _ w _ (refl, refl)
  found-Agrees n outcome promise_date (some s) w =
      elim (Bool-cases (outcome_recordable_from s.status)) [
        | inl t ↦ rw t (recordable-Agrees n outcome promise_date s w)
        | inr f ↦ rw f (finished-Agrees (suc (suc n)) _ w _ (refl, refl))
      ]

  looked-Agrees :
      (n : ℕ) (outcome promise_date : String) (r : Result (Option RecoverySession)) (w : World)
      → Agrees
          (advances os client (suc (suc n)) (found os client outcome promise_date w.clock r) w)
          (proceed r (end_found os client outcome promise_date) w)
  looked-Agrees n outcome promise_date (ok o) w = found-Agrees n outcome promise_date o w
  looked-Agrees n outcome promise_date (err e) w = finished-Agrees (suc (suc n)) _ w _ (refl, refl)

  -- A request that nothing comes between returns after at most four calls of the store and the
  -- provider, and it is EndSession: it returns what EndSession returns and leaves the world that
  -- EndSession leaves, whatever fails.
  advances-end_session :
      (call outcome promise_date : String) (w : World)
      → (result_of (advances os client 4 (looking call outcome promise_date) w).0
          ≡ some (end_session os client call outcome promise_date w).0)
        × ((advances os client 4 (looking call outcome promise_date) w).1
            ≡ (end_session os client call outcome promise_date w).1)
  unfolding end_session ◌>>=◌ advances
  advances-end_session call outcome promise_date w =
      looked-Agrees 1 outcome promise_date (get_session_by_call_session_id call w).0
        (get_session_by_call_session_id call w).1
