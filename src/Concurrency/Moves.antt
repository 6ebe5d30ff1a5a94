-- ===== src/Concurrency/Moves.antt =====
-- Whatever comes between the calls of the requests, the tables move as the life cycle allows.
use vasuli.Prelude.{
  ℕ, zero, suc, String, ◌≡◌, refl, Bool, true, false, Bool-cases, inl, inr, Option, none, some,
  List, [], ◌∷◌, All, All-append, str_eq,
}
use vasuli.Exec.{Result, ok, err}
use vasuli.World.{World, Client, PaymentLinkResponse}
use vasuli.Platform.{Platform}
use vasuli.Store.Tables.{RecoverySession}
use vasuli.Store.Outcome.{OutcomeWrite}
use vasuli.Campaign.Outcome.{
  outcome_agreed, end_session_allowed_from, outcome_recordable_from, build_outcome_write,
}
use vasuli.Campaign.EndSession.{link_request}
use vasuli.Lifecycle.Moves.{is_outcome}
use vasuli.Lifecycle.Worlds.{Moves, Moves-Order, Moves-same, Moves-same_db}
use vasuli.Lifecycle.Statements.{
  get_session_by-Within, insert_audit_log-Within, insert_campaign-Within,
  insert_recovery_session-Within, increment_campaign_total-Within,
}
use vasuli.Lifecycle.Assign.{assign_next_pending-Within}
use vasuli.Lifecycle.Updates.{mark_recovered-Within, set_next_eligible_at-Within}
use vasuli.Lifecycle.Outcome.{record_outcome-Within}
use vasuli.Lifecycle.Requests.{build_outcome_write-is_outcome}
use vasuli.Concurrency.{
  Stage, looking, asking, noting, recording, recorded, stopped, built, committed, found, linked,
  advance, proceed_at, StoreCall, add_campaign, add_session, add_to_total, assign, settle,
  reschedule, note, wait, call_store, Event, arrive, go_on, other_call, Service, happen, happens,
}

-- What a request is about to record is an outcome.
abbrev pub IsGood : Stage → Type 0
IsGood (recording o) = is_outcome o.status ≡ true
IsGood (looking call outcome promise_date) = Unit
IsGood (asking outcome promise_date s) = Unit
IsGood (noting s e) = Unit
IsGood (recorded o) = Unit
IsGood (stopped e) = Unit

built-IsGood :
    (x : Option OutcomeWrite)
    → ((o : OutcomeWrite) → x ≡ some o → is_outcome o.status ≡ true)
    → IsGood (built x)
built-IsGood none h = tt
built-IsGood (some o) h = h o refl

committed-IsGood : (o : OutcomeWrite) (r : Result Bool) → IsGood (committed o r)
committed-IsGood o (ok true) = tt
committed-IsGood o (ok false) = tt
committed-IsGood o (err e) = tt

module _ (os : Platform) (client : Client) where
  write-IsGood :
      (s : RecoverySession) (now : ℕ) (outcome promise_date : String)
      (link : Option PaymentLinkResponse)
      → IsGood (built (build_outcome_write os s now outcome promise_date link))
  write-IsGood s now outcome promise_date link =
      built-IsGood _ (build_outcome_write-is_outcome os s now outcome promise_date link)

  found-IsGood :
      (outcome promise_date : String) (now : ℕ) (r : Result (Option RecoverySession))
      → IsGood (found os client outcome promise_date now r)
  found-IsGood outcome promise_date now (err e) = tt
  found-IsGood outcome promise_date now (ok none) = tt
  found-IsGood outcome promise_date now (ok (some s)) =
      elim (Bool-cases (outcome_recordable_from s.status)) [
        | inl t ↦ rw t (elim (Bool-cases (str_eq outcome outcome_agreed)) [
          | inl a ↦ rw a tt
          | inr a ↦ rw a (write-IsGood s now outcome promise_date none)
        ])
        | inr f ↦ rw f tt
      ]

  linked-IsGood :
      (outcome promise_date : String) (s : RecoverySession) (now : ℕ)
      (r : Result PaymentLinkResponse)
      → IsGood (linked os client outcome promise_date s now r)
  linked-IsGood outcome promise_date s now (ok link) =
      write-IsGood s now outcome promise_date (some link)
  linked-IsGood outcome promise_date s now (err e) = tt

  pub advance-IsGood : (t : Stage) (w : World) → IsGood t → IsGood (advance os client t w).0
  unfolding advance
  advance-IsGood (looking call outcome promise_date) w g = found-IsGood outcome promise_date _ _
  advance-IsGood (asking outcome promise_date s) w g = linked-IsGood outcome promise_date s _ _
  advance-IsGood (noting s e) w g = tt
  advance-IsGood (recording o) w g = committed-IsGood o _
  advance-IsGood (recorded o) w g = tt
  advance-IsGood (stopped e) w g = tt

  pub advance-Moves : (t : Stage) (w : World) → IsGood t → Moves w (advance os client t w).1
  unfolding advance
  advance-Moves (looking call outcome promise_date) w g = (get_session_by-Within _ call).at w
  advance-Moves (asking outcome promise_date s) w g =
      Moves-same_db w _ (client.keeps_db (link_request s) w)
  advance-Moves (noting s e) w g = (insert_audit_log-Within s.id _).at w
  advance-Moves (recording o) w g =
      (record_outcome-Within o end_session_allowed_from g (refl, (refl, tt))).at w
  advance-Moves (recorded o) w g = Moves-Order.same w
  advance-Moves (stopped e) w g = Moves-Order.same w

  proceed_at-IsGood :
      (i : ℕ) (ts : List Stage) (w : World)
      → All IsGood ts
      → All IsGood (proceed_at os client i ts w).0
  unfolding proceed_at
  proceed_at-IsGood zero [] w a = tt
  proceed_at-IsGood (suc i) [] w a = tt
  proceed_at-IsGood zero (t ∷ ts) w a = (advance-IsGood t w a.0, a.1)
  proceed_at-IsGood (suc i) (t ∷ ts) w a = (a.0, proceed_at-IsGood i ts w a.1)

  proceed_at-Moves :
      (i : ℕ) (ts : List Stage) (w : World)
      → All IsGood ts
      → Moves w (proceed_at os client i ts w).1
  unfolding proceed_at
  proceed_at-Moves zero [] w a = Moves-Order.same w
  proceed_at-Moves (suc i) [] w a = Moves-Order.same w
  proceed_at-Moves zero (t ∷ ts) w a = advance-Moves t w a.0
  proceed_at-Moves (suc i) (t ∷ ts) w a = proceed_at-Moves i ts w a.1

  pub happen-IsGood :
      (e : Event) (s : Service) → All IsGood s.requests → All IsGood (happen os client e s).requests
  unfolding happen
  happen-IsGood (arrive call outcome promise_date) s a = All-append IsGood _ _ a (tt, tt)
  happen-IsGood (go_on i) s a = proceed_at-IsGood i s.requests s.world a
  happen-IsGood (other_call c) s a = a

pub call_store-Moves : (c : StoreCall) (w : World) → Moves w (call_store c w)
unfolding call_store
call_store-Moves (add_campaign id name total) w = (insert_campaign-Within id name total).at w
call_store-Moves (add_session id campaign_id prompt acc) w =
    (insert_recovery_session-Within id campaign_id prompt acc).at w
call_store-Moves (add_to_total id) w = (increment_campaign_total-Within id).at w
call_store-Moves (assign call) w = (assign_next_pending-Within call).at w
call_store-Moves (settle id) w = (mark_recovered-Within id).at w
call_store-Moves (reschedule id at) w = (set_next_eligible_at-Within id at).at w
call_store-Moves (note id e) w = (insert_audit_log-Within id e).at w
call_store-Moves (wait n) w = Moves-same w _ refl refl refl

module _ (os : Platform) (client : Client) where
  pub happen-Moves :
      (e : Event) (s : Service) → All IsGood s.requests → Moves s.world (happen os client e s).world
  unfolding happen
  happen-Moves (arrive call outcome promise_date) s a = Moves-Order.same s.world
  happen-Moves (go_on i) s a = proceed_at-Moves os client i s.requests s.world a
  happen-Moves (other_call c) s a = call_store-Moves c s.world

  pub happens-Moves :
      (es : List Event) (s : Service)
      → All IsGood s.requests
      → Moves s.world (happens os client es s).world
  unfolding happens
  happens-Moves [] s a = Moves-Order.same s.world
  happens-Moves (e ∷ es) s a =
      Moves-Order.chain s.world (happen os client e s).world _ (happen-Moves e s a)
        (happens-Moves es (happen os client e s) (happen-IsGood os client e s a))
