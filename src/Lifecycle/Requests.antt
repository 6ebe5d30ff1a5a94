-- ===== src/Lifecycle/Requests.antt =====
-- Each method of campaign/manager.go moves the tables as the life cycle allows.
use vasuli.Prelude.{
  ℕ, String, ◌≡◌, refl, Bool, true, false, Option, none, some, List, [], ◌∷◌, arith,
}
use vasuli.Exec.{Result, ok, err}
use vasuli.Exec.Within.{Within, Within-bind, Within-attempt}
use vasuli.World.{PaymentLinkRequest, PaymentLinkResponse, Client}
use vasuli.Platform.{Platform}
use vasuli.Store.Tables.{Campaign, Account, RecoverySession, Payload}
use vasuli.Store.Outcome.{OutcomeWrite}
use vasuli.Razorpay.Webhook.{PaymentEntity}
use vasuli.Campaign.Outcome.{end_session_allowed_from, build_outcome_write}
use vasuli.Campaign.EndSession.{
  link_result, link_for, apply_write, end_recordable, end_found, end_session,
}
use vasuli.Campaign.Sessions.{
  create_session, create_sessions, create_campaign, log_assigned, assign_session,
}
use vasuli.Campaign.Payments.{
  log_captured, confirm_recovery, handle_payment_captured, handle_payment_link_paid,
  created_session, queue_payment, find_existing, queue_unless, queue_on, handle_payment_failed,
}
use vasuli.Lifecycle.Moves.{is_outcome}
use vasuli.Lifecycle.Worlds.{Moves, Moves-Order, Moves-same_db}
use vasuli.Lifecycle.Statements.{
  quiet_rules, get_session_by_id-Within, get_session_by-Within, insert_campaign-Within,
  insert_recovery_session-Within, get_campaign-Within, insert_audit_log-Within,
  increment_campaign_total-Within, get_most_recent_active_campaign-Within,
}
use vasuli.Lifecycle.Assign.{assign_next_pending-Within}
use vasuli.Lifecycle.Updates.{mark_recovered-Within}
use vasuli.Lifecycle.Outcome.{record_outcome-Within}

ruleset store_rules = (
  quiet_rules, Within-attempt, get_session_by_id-Within, get_session_by-Within,
  insert_campaign-Within, insert_recovery_session-Within, get_campaign-Within,
  insert_audit_log-Within, increment_campaign_total-Within, get_most_recent_active_campaign-Within,
  assign_next_pending-Within, mark_recovered-Within,
)

create_session-Within :
    (os : Platform) (id : String) (acc : Account) → Within Moves (create_session os id acc)
unfolding create_session
create_session-Within os id acc = search store_rules depth 9

create_sessions-Within :
    (os : Platform) (id : String) (accounts : List Account)
    → Within Moves (create_sessions os id accounts)
unfolding create_sessions
create_sessions-Within os id [] = search store_rules
create_sessions-Within os id (acc ∷ accounts) =
    Within-bind Moves-Order _ _ (create_session-Within os id acc)
      (λ _. create_sessions-Within os id accounts)

pub create_campaign-Within :
    (os : Platform) (name : String) (accounts : List Account)
    → Within Moves (create_campaign os name accounts)
unfolding create_campaign
create_campaign-Within os name [] = search store_rules
create_campaign-Within os name (acc ∷ accounts) =
    search (store_rules, create_sessions-Within) depth 9

log_assigned-Within :
    (call : String) (o : Option RecoverySession) → Within Moves (log_assigned call o)
unfolding log_assigned
log_assigned-Within call none = search store_rules
log_assigned-Within call (some s) = search store_rules

pub assign_session-Within : (call : String) → Within Moves (assign_session call)
unfolding assign_session
assign_session-Within call = search (store_rules, log_assigned-Within)

log_captured-Within :
    (id : String) (event_data : Payload) (b : Bool) → Within Moves (log_captured id event_data b)
unfolding log_captured
log_captured-Within id event_data true = search store_rules
log_captured-Within id event_data false = search store_rules

confirm_recovery-Within :
    (event_data : Payload) (o : Option RecoverySession)
    → Within Moves (confirm_recovery event_data o)
unfolding confirm_recovery
confirm_recovery-Within event_data none = search store_rules
confirm_recovery-Within event_data (some s) = search (store_rules, log_captured-Within)

pub handle_payment_captured-Within : (id : String) → Within Moves (handle_payment_captured id)
unfolding handle_payment_captured
handle_payment_captured-Within id = search (store_rules, confirm_recovery-Within)

pub handle_payment_link_paid-Within :
    (link_id id : String) → Within Moves (handle_payment_link_paid link_id id)
unfolding handle_payment_link_paid
handle_payment_link_paid-Within link_id id = search (store_rules, confirm_recovery-Within)

created_session-Within : (o : Option RecoverySession) → Within Moves (created_session o)
unfolding created_session
created_session-Within none = search store_rules
created_session-Within (some s) = search store_rules

queue_payment-Within :
    (os : Platform) (c : Campaign) (p : PaymentEntity) (acc : Account)
    → Within Moves (queue_payment os c p acc)
unfolding queue_payment
queue_payment-Within os c p acc = search (store_rules, created_session-Within) depth 16

queue_unless-Within :
    (os : Platform) (c : Campaign) (p : PaymentEntity) (o : Option RecoverySession)
    → Within Moves (queue_unless os c p o)
unfolding queue_unless
queue_unless-Within os c p (some s) = search store_rules
queue_unless-Within os c p none = search (store_rules, queue_payment-Within)

find_existing-Within : (id : String) → Within Moves (find_existing id)
unfolding find_existing
find_existing-Within id = search store_rules

queue_on-Within :
    (os : Platform) (p : PaymentEntity) (o : Option Campaign) → Within Moves (queue_on os p o)
unfolding queue_on
queue_on-Within os p none = search store_rules
queue_on-Within os p (some c) = search (store_rules, find_existing-Within, queue_unless-Within)

pub handle_payment_failed-Within :
    (os : Platform) (p : PaymentEntity) → Within Moves (handle_payment_failed os p)
unfolding handle_payment_failed
handle_payment_failed-Within os p = search (store_rules, queue_on-Within)

-- Every outcome leads to a status that an outcome may lead to.
pub build_outcome_write-is_outcome :
    (os : Platform) (s : RecoverySession) (now : ℕ) (outcome promise_date : String)
    (link : Option PaymentLinkResponse) (o : OutcomeWrite)
    → build_outcome_write os s now outcome promise_date link ≡ some o
    → is_outcome o.status ≡ true
unfolding build_outcome_write
build_outcome_write-is_outcome os s now outcome promise_date none o e = ground arith
build_outcome_write-is_outcome os s now outcome promise_date (some link) o e = ground arith

link_result-Within :
    (s : RecoverySession) (r : Result PaymentLinkResponse) → Within Moves (link_result s r)
unfolding link_result
link_result-Within s (ok link) = search store_rules
link_result-Within s (err e) = search store_rules

apply_write-Within :
    (o : Option OutcomeWrite)
    → ((x : OutcomeWrite) → o ≡ some x → is_outcome x.status ≡ true)
    → Within Moves (apply_write o)
unfolding apply_write
apply_write-Within none h = search store_rules
apply_write-Within (some o) h =
    Within-bind Moves-Order _ _
      (record_outcome-Within o end_session_allowed_from (h o refl) (refl, (refl, tt)))
      (λ _. search store_rules)

module _ (os : Platform) (client : Client) where
  client-Within : (r : PaymentLinkRequest) → Within Moves (client.create_payment_link r)
  client-Within r = record { at = λ w. Moves-same_db w _ (client.keeps_db r w) }

  link_for-Within :
      (outcome : String) (s : RecoverySession) → Within Moves (link_for os client outcome s)
  unfolding link_for
  link_for-Within outcome s = search (store_rules, client-Within, link_result-Within) depth 7

  end_recordable-Within :
      (outcome promise_date : String) (s : RecoverySession)
      → Within Moves (end_recordable os client outcome promise_date s)
  unfolding end_recordable
  end_recordable-Within outcome promise_date s =
      search (store_rules, link_for-Within, apply_write-Within, build_outcome_write-is_outcome)

  end_found-Within :
      (outcome promise_date : String) (o : Option RecoverySession)
      → Within Moves (end_found os client outcome promise_date o)
  unfolding end_found
  end_found-Within outcome promise_date none = search store_rules
  end_found-Within outcome promise_date (some s) = search (store_rules, end_recordable-Within)

  pub end_session-Within :
      (call outcome promise_date : String)
      → Within Moves (end_session os client call outcome promise_date)
  unfolding end_session
  end_session-Within call outcome promise_date = search (store_rules, end_found-Within)
