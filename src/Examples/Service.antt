-- ===== src/Examples/Service.antt =====
-- The voice service with the recovery orchestrator at the two worlds.
use vasuli.Prelude.{◌≡◌, refl, true, false}
use vasuli.Exec.{◌>>=◌}
use vasuli.World.{driver_call, transaction}
use vasuli.Store.Tables.{RecoverySession}
use vasuli.Store.Rows.{find, find_by, update, soonest, taken_by_other}
use vasuli.Store.Schedule.{candidates, eligible_now, still_contactable}
use vasuli.Store.Statements.{now_sql, get_session_by, get_session_by_id, insert_audit_log}
use vasuli.Store.Assign.{claim, bind_session, claim_next, assign_next_pending}
use vasuli.Store.Outcome.{
  Status-discrete, insert_events, store_outcome, link_conflict, write_outcome, check_status,
  outcome_body, record_outcome,
}
use vasuli.Campaign.Outcome.{promised_write, build_outcome_write}
use vasuli.Campaign.Sessions.{log_assigned, assign_session}
use vasuli.Campaign.EndSession.{link_for, apply_write, end_recordable, end_found, end_session}
use vasuli.Razorpay.Clients.{stub_client}
use vasuli.Api.Calls.{assign_call, end_call}
use vasuli.Voice.Session.{SessionState-discrete, attach, allows, transition_to}
use vasuli.Voice.Call.{attached}
use vasuli.Voice.Outcome.{Honest}
use vasuli.Voice.Recovery.{delivered, reply_lost, client_assign, client_end, do_post}
use vasuli.Voice.Gateway.{AgentProfile, Server, start_session, resolve_profile, open_call}
use vasuli.Voice.Bridge.{Claims, RunsFor, open_call-RunsFor}
use vasuli.Voice.Reports.{Stands, returned-Stands}
use vasuli.Voice.Stranded.{Unreported, unanswered, open_call-stranded}
use vasuli.Examples.Data.{calendar, waiting, two_customers, one_call}
use vasuli.Examples.Calls.{one_call-Keyed, two_customers-Keyed}
use vasuli.Examples.Voice.{promised_call, promised_call-Reach}

abbrev gateway : Server
gateway = record {
  profile = record { name = "Riya"; description = "collections"; system_prompt = "fallback" };
  recovery = true;
}

abbrev asha : AgentProfile
asha = record { name = "Riya"; description = "collections"; system_prompt = "prompt" }

abbrev handed_out : RecoverySession
handed_out = claim "call_2" (now_sql two_customers) waiting

open_call-RunsFor_example :
    (attached true ≡ attached true)
    × RunsFor gateway "call_2" two_customers
        (open_call gateway (start_session "call_2") true delivered true two_customers).1
        asha
unfolding open_call resolve_profile client_assign do_post assign_call assign_session log_assigned
    insert_audit_log assign_next_pending claim_next bind_session claim transaction driver_call ◌>>=◌
    candidates eligible_now still_contactable soonest taken_by_other get_session_by_id find update
    attach transition_to allows SessionState-discrete
open_call-RunsFor_example =
    open_call-RunsFor gateway "call_2" delivered two_customers asha (attached true)
      two_customers-Keyed refl refl

open_call-stranded_example :
    Unreported
      (open_call gateway (start_session "call_2") true (reply_lost "timeout") true two_customers).0
    × Claims "call_2" two_customers
        (open_call gateway
          (start_session "call_2")
          true
          (reply_lost "timeout")
          true
          two_customers).1
        handed_out
    × (still_contactable handed_out ≡ false)
unfolding assign_session log_assigned insert_audit_log assign_next_pending claim_next bind_session
    claim transaction driver_call ◌>>=◌ candidates eligible_now still_contactable soonest
    taken_by_other get_session_by_id find update
open_call-stranded_example =
    open_call-stranded gateway "call_2" (reply_lost "timeout") true two_customers handed_out
      two_customers-Keyed refl refl refl unanswered

returned-Stands_example :
    Honest "PROMISED" "2026-09-05" promised_call.classified
    × Stands calendar stub_client "call_1" "PROMISED" "2026-09-05" one_call
        (client_end calendar stub_client delivered "call_1" "PROMISED" "2026-09-05" one_call).1
unfolding client_end do_post end_call end_session end_found end_recordable link_for apply_write
    build_outcome_write promised_write get_session_by find_by record_outcome outcome_body
    check_status write_outcome store_outcome link_conflict insert_events insert_audit_log
    transaction driver_call ◌>>=◌ find update Status-discrete
returned-Stands_example =
    returned-Stands calendar stub_client "call_1" "PROMISED" "2026-09-05" delivered promised_call
      one_call one_call-Keyed promised_call-Reach refl refl refl refl
