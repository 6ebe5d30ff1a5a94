-- ===== src/Campaign/Outcome.antt =====
-- The consequences of an outcome in campaign/manager.go: buildOutcomeWrite and promisedFollowUp.
use vasuli.Prelude.{
  ℕ, ◌+◌, String, Bool, Option, none, some, List, [], ◌∷◌, ◌++◌, ltb, leb, str_eq, if◌then◌else◌,
}
use vasuli.World.{PaymentLinkResponse}
use vasuli.Platform.{Platform}
use vasuli.Store.Tables.{
  Status, active, unclear, link_sent, promised, refused, failed, RecoverySession, Datum, text,
  paise, instant, AuditEvent, day,
}
use vasuli.Store.Outcome.{OutcomeWrite, one_of}

-- The constants OutcomeAgreed, OutcomePromised and OutcomeRefused; every other text is treated as
-- OutcomeUnclear.
abbrev pub outcome_agreed : String
outcome_agreed = "AGREED"

abbrev pub outcome_promised : String
outcome_promised = "PROMISED"

abbrev pub outcome_refused : String
outcome_refused = "REFUSED"

abbrev pub follow_up_cooldown : ℕ
follow_up_cooldown = day

abbrev pub end_session_allowed_from : List Status
end_session_allowed_from = active ∷ unclear ∷ []

abbrev pub outcome_recordable_from : Status → Bool
outcome_recordable_from = one_of end_session_allowed_from

abbrev honour : ℕ → ℕ → Option ℕ → ℕ
honour now fallback none = fallback
honour now fallback (some date) = if ltb date now then now else date

-- The pointer that promisedFollowUp returns is never nil.
unfoldable pub promised_follow_up : Platform → ℕ → String → ℕ → ℕ
promised_follow_up os now promise_date fallback = honour now fallback (os.parse_date promise_date)

abbrev pub event : String → List (String × Datum) → AuditEvent
event event_type event_data = record { event_type = event_type; event_data = event_data }

abbrev pub base_events : String → List AuditEvent
base_events outcome =
    event "call_ended" (("outcome", text outcome) ∷ [])
    ∷ event "outcome_classified" (("outcome", text outcome) ∷ [])
    ∷ []

-- The branch for AGREED.
unfoldable pub agreed_write : RecoverySession → ℕ → PaymentLinkResponse → OutcomeWrite
agreed_write s now link = record {
  session_id = s.id;
  status = link_sent;
  promise_date = "";
  razorpay_link_id = link.id;
  events =
      base_events outcome_agreed
      ++ event "payment_link_sent" (
          ("razorpay_link_id", text link.id)
          ∷ ("short_url", text link.short_url)
          ∷ ("amount_paise", paise s.outstanding_paise)
          ∷ [])
        ∷ [];
  next_eligible_at = some (now + follow_up_cooldown);
}

unfoldable pub promised_write : Platform → RecoverySession → ℕ → String → OutcomeWrite
unfolding promised_follow_up
promised_write os s now promise_date =
    let at = promised_follow_up os now promise_date (now + follow_up_cooldown) in
    record {
      session_id = s.id;
      status = promised;
      promise_date = promise_date;
      razorpay_link_id = "";
      events =
          base_events outcome_promised
          ++ event "promise_logged"
              (("promise_date", text promise_date) ∷ ("next_eligible_at", instant (some at)) ∷ [])
            ∷ [];
      next_eligible_at = some at;
    }

unfoldable pub refused_write : RecoverySession → OutcomeWrite
refused_write s = record {
  session_id = s.id;
  status = refused;
  promise_date = "";
  razorpay_link_id = "";
  events =
      base_events outcome_refused
      ++ event "stopped_refused" (("escalated_to", text "human agent") ∷ []) ∷ [];
  next_eligible_at = none;
}

-- The default branch: UNCLEAR, and anything unrecognised.
unfoldable pub unclear_write : RecoverySession → ℕ → String → OutcomeWrite
unclear_write s now outcome =
    if leb s.max_contact_attempts s.contact_attempts
    then record {
      session_id = s.id;
      status = failed;
      promise_date = "";
      razorpay_link_id = "";
      events = base_events outcome ++ event "stopped_max_attempts" [] ∷ [];
      next_eligible_at = none;
    }
    else record {
      session_id = s.id;
      status = unclear;
      promise_date = "";
      razorpay_link_id = "";
      events = base_events outcome;
      next_eligible_at = some (now + follow_up_cooldown);
    }

-- `link.ID` on a nil link would panic; `none` stands for that.
abbrev agreed_or_panic : RecoverySession → ℕ → Option PaymentLinkResponse → Option OutcomeWrite
agreed_or_panic s now none = none
agreed_or_panic s now (some link) = some (agreed_write s now link)

unfoldable pub build_outcome_write :
    Platform
    → RecoverySession
    → ℕ
    → String
    → String
    → Option PaymentLinkResponse
    → Option OutcomeWrite
unfolding agreed_write promised_write refused_write unclear_write
build_outcome_write os s now outcome promise_date link =
    if str_eq outcome outcome_agreed
    then agreed_or_panic s now link
    else if str_eq outcome outcome_promised
    then some (promised_write os s now promise_date)
    else if str_eq outcome outcome_refused
    then some (refused_write s)
    else some (unclear_write s now outcome)
