-- ===== src/Campaign/EndSession.antt =====
-- EndSession of campaign/manager.go.
use Prim.Native.String.{◌++◌ as ◌+s◌}
use vasuli.Prelude.{String, Option, none, some, [], ◌∷◌, str_eq, if◌then◌else◌}
use vasuli.Exec.{
  Error, outcome_already_recorded, session_not_found, no_active_campaign, other, Result, ok, err,
  Exec, pure, raise, gets, attempt, ◌>>=◌, ◌>>◌,
}
use vasuli.World.{World, PaymentLinkRequest, PaymentLinkResponse, Client, because}
use vasuli.Platform.{Platform}
use vasuli.Store.Tables.{RecoverySession, text}
use vasuli.Store.Statements.{get_session_by_call_session_id, insert_audit_log}
use vasuli.Store.Outcome.{OutcomeWrite, record_outcome}
use vasuli.Campaign.Outcome.{
  outcome_agreed, end_session_allowed_from, outcome_recordable_from, event, build_outcome_write,
}

-- err.Error().
abbrev pub error_text : Error → String
error_text outcome_already_recorded = "campaign: session outcome is already recorded"
error_text session_not_found = "campaign: no recovery session matches this event"
error_text no_active_campaign = "campaign: no active campaign to attach this payment to"
error_text (other message) = message

abbrev pub link_request : RecoverySession → PaymentLinkRequest
link_request s = record {
  amount_paise = s.outstanding_paise;
  description = "Payment recovery, " +s s.product_name;
  customer_name = s.customer_name;
}

-- A failure of the provider is logged as well as that goes, and reported.
unfoldable pub link_result :
    RecoverySession → Result PaymentLinkResponse → Exec World (Option PaymentLinkResponse)
link_result s (ok link) = pure (some link)
link_result s (err e) = do
  attempt
      (insert_audit_log s.id (event "payment_link_failed" (("error", text (error_text e)) ∷ [])))
  raise (other (because "campaign: create payment link" (error_text e)))

unfoldable pub apply_write : Option OutcomeWrite → Exec World Unit
apply_write none = raise (other "panic: nil pointer dereference")
apply_write (some o) = do
  applied ← record_outcome o end_session_allowed_from
  if applied then pure tt else raise outcome_already_recorded

module _ (os : Platform) (client : Client) where
  unfoldable pub obtain_link : RecoverySession → Exec World (Option PaymentLinkResponse)
  unfolding link_result
  obtain_link s = do r ← attempt (client.create_payment_link (link_request s)); link_result s r

  unfoldable pub link_for : String → RecoverySession → Exec World (Option PaymentLinkResponse)
  unfolding obtain_link
  link_for outcome s = if str_eq outcome outcome_agreed then obtain_link s else pure none

  unfoldable pub end_recordable : String → String → RecoverySession → Exec World Unit
  unfolding link_for apply_write
  end_recordable outcome promise_date s = do
    link ← link_for outcome s
    now ← gets λ w. w.clock
    apply_write (build_outcome_write os s now outcome promise_date link)

  unfoldable pub end_found : String → String → Option RecoverySession → Exec World Unit
  unfolding end_recordable
  end_found outcome promise_date none =
      raise (other "campaign: no session bound to call_session_id")
  end_found outcome promise_date (some s) =
      if outcome_recordable_from s.status
      then end_recordable outcome promise_date s
      else raise outcome_already_recorded

  unfoldable pub end_session : String → String → String → Exec World Unit
  unfolding end_found
  end_session call_session_id outcome promise_date = do
    found ← get_session_by_call_session_id call_session_id
    end_found outcome promise_date found
