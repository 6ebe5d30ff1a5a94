-- ===== src/Concurrency.antt =====
-- EndSession of campaign/manager.go, one call of the store or of the provider at a time, so that other
-- requests can come between. A call of the store is one action: RecordOutcome and AssignNextPending
-- hold the only connection for as long as their transactions run.
pub mod Alone
pub mod Moves
pub mod ClosedCalls
pub mod Decisions
use vasuli.Prelude.{
  ℕ, zero, suc, ◌+◌, String, Bool, true, false, Option, none, some, List, [], ◌∷◌, ◌++◌, str_eq,
  if◌then◌else◌,
}
use vasuli.Exec.{Error, outcome_already_recorded, other, Result, ok, err}
use vasuli.World.{World, PaymentLinkResponse, Client, because}
use vasuli.Platform.{Platform}
use vasuli.Store.Tables.{Account, AuditEvent, RecoverySession, text}
use vasuli.Store.Statements.{
  get_session_by_call_session_id, insert_audit_log, insert_campaign, insert_recovery_session,
  increment_campaign_total,
}
use vasuli.Store.Assign.{assign_next_pending}
use vasuli.Store.Outcome.{OutcomeWrite, record_outcome, mark_recovered, set_next_eligible_at}
use vasuli.Campaign.Outcome.{
  outcome_agreed, end_session_allowed_from, outcome_recordable_from, event, build_outcome_write,
}
use vasuli.Campaign.EndSession.{error_text, link_request}

-- Where a call of EndSession stands: before its lookup, its call of the provider, the audit row for a
-- failure of the provider, or its transaction; or what it has come to.
pub data Stage : Type 0 where
  looking : String → String → String → Stage
  asking : String → String → RecoverySession → Stage
  noting : RecoverySession → Error → Stage
  recording : OutcomeWrite → Stage
  recorded : OutcomeWrite → Stage
  stopped : Error → Stage

abbrev pub built : Option OutcomeWrite → Stage
built none = stopped (other "panic: nil pointer dereference")
built (some o) = recording o

abbrev pub committed : OutcomeWrite → Result Bool → Stage
committed o (ok true) = recorded o
committed o (ok false) = stopped outcome_already_recorded
committed o (err e) = stopped e

module _ (os : Platform) (client : Client) where
  abbrev pub found : String → String → ℕ → Result (Option RecoverySession) → Stage
  found outcome promise_date now (err e) = stopped e
  found outcome promise_date now (ok none) =
      stopped (other "campaign: no session bound to call_session_id")
  found outcome promise_date now (ok (some s)) =
      if outcome_recordable_from s.status
      then if str_eq outcome outcome_agreed
        then asking outcome promise_date s
        else built (build_outcome_write os s now outcome promise_date none)
      else stopped outcome_already_recorded

  abbrev pub linked : String → String → RecoverySession → ℕ → Result PaymentLinkResponse → Stage
  linked outcome promise_date s now (ok link) =
      built (build_outcome_write os s now outcome promise_date (some link))
  linked outcome promise_date s now (err e) = noting s e

  -- The next call, and where it leads.
  unfoldable pub advance : Stage → World → Stage × World
  advance (looking call outcome promise_date) w =
      let (r, w') = get_session_by_call_session_id call w in
      (found outcome promise_date w'.clock r, w')
  advance (asking outcome promise_date s) w =
      let (r, w') = client.create_payment_link (link_request s) w in
      (linked outcome promise_date s w'.clock r, w')
  advance (noting s e) w =
      let (r, w') =
        insert_audit_log s.id (event "payment_link_failed" (("error", text (error_text e)) ∷ []))
          w in
      (stopped (other (because "campaign: create payment link" (error_text e))), w')
  advance (recording o) w =
      let (r, w') = record_outcome o end_session_allowed_from w in (committed o r, w')
  advance (recorded o) w = (recorded o, w)
  advance (stopped e) w = (stopped e, w)

  -- The request alone, for a number of calls.
  unfoldable pub advances : ℕ → Stage → World → Stage × World
  unfolding advance
  advances zero t w = (t, w)
  advances (suc n) t w = let (t', w') = advance t w in advances n t' w'

  -- One of several requests.
  unfoldable pub proceed_at : ℕ → List Stage → World → List Stage × World
  unfolding advance
  proceed_at i [] w = ([], w)
  proceed_at zero (t ∷ ts) w = let (t', w') = advance t w in (t' ∷ ts, w')
  proceed_at (suc i) (t ∷ ts) w = let (ts', w') = proceed_at i ts w in (t ∷ ts', w')

-- The calls by which every other request changes the store, and the passing of time.
pub data StoreCall : Type 0 where
  add_campaign : String → String → ℕ → StoreCall
  add_session : String → String → String → Account → StoreCall
  add_to_total : String → StoreCall
  assign : String → StoreCall
  settle : String → StoreCall
  reschedule : String → ℕ → StoreCall
  note : String → AuditEvent → StoreCall
  wait : ℕ → StoreCall

unfoldable pub call_store : StoreCall → World → World
call_store (add_campaign id name total) w = (insert_campaign id name total w).1
call_store (add_session id campaign_id prompt acc) w =
    (insert_recovery_session id campaign_id prompt acc w).1
call_store (add_to_total id) w = (increment_campaign_total id w).1
call_store (assign call) w = (assign_next_pending call w).1
call_store (settle id) w = (mark_recovered id w).1
call_store (reschedule id at) w = (set_next_eligible_at id at w).1
call_store (note id e) w = (insert_audit_log id e w).1
call_store (wait n) w = record w { clock = w.clock + n }

-- A call of EndSession comes in, goes on by one call, or something else happens.
pub data Event : Type 0 where
  arrive : String → String → String → Event
  go_on : ℕ → Event
  other_call : StoreCall → Event

pub record Service : Type 0 where
  pub requests : List Stage
  pub world : World

module _ (os : Platform) (client : Client) where
  unfoldable pub happen : Event → Service → Service
  unfolding proceed_at call_store
  happen (arrive call outcome promise_date) s = record s {
    requests = s.requests ++ looking call outcome promise_date ∷ [];
  }
  happen (go_on i) s =
      let (ts, w) = proceed_at os client i s.requests s.world in record { requests = ts; world = w }
  happen (other_call c) s = record s { world = call_store c s.world }

  unfoldable pub happens : List Event → Service → Service
  unfolding happen
  happens [] s = s
  happens (e ∷ es) s = happens es (happen e s)
