-- ===== src/Examples/Calls.antt =====
-- The theorems of `CallEnd` and `Scheduling` at the two worlds.
use vasuli.Prelude.{◌≡◌, refl, some, none, [], ◌∷◌}
use vasuli.Exec.{◌>>=◌}
use vasuli.World.{World, driver_call, transaction}
use vasuli.Store.Tables.{RecoverySession}
use vasuli.Store.Rows.{find, find_by, update, soonest, taken_by_other}
use vasuli.Store.Schedule.{candidates, eligible_now, still_contactable}
use vasuli.Store.Statements.{now_sql, get_session_by, get_session_by_id, insert_audit_log}
use vasuli.Store.Assign.{claim, bind_session, claim_next, assign_next_pending}
use vasuli.Store.Outcome.{
  Status-discrete, OutcomeWrite, insert_events, store_outcome, link_conflict, write_outcome,
  check_status, outcome_body, record_outcome,
}
use vasuli.Campaign.Outcome.{end_session_allowed_from, promised_write, build_outcome_write}
use vasuli.Campaign.EndSession.{link_for, apply_write, end_recordable, end_found, end_session}
use vasuli.Razorpay.Clients.{stub_client}
use vasuli.Lifecycle.Tables.{Keyed}
use vasuli.CallEnd.Atomic.{record_outcome_atomic}
use vasuli.CallEnd.Recorded.{Recorded, record_outcome-Recorded}
use vasuli.CallEnd.Once.{Ended, Unrecorded, end_session-Ended}
use vasuli.CallEnd.Twice.{end_session_once}
use vasuli.Scheduling.Choice.{Picked, assign_next_pending-Picked}
use vasuli.Examples.Data.{calendar, waiting, in_call, two_customers, one_call}

pub one_call-Keyed : Keyed one_call.sessions
unfolding find
one_call-Keyed = (refl, (refl, tt))

pub two_customers-Keyed : Keyed two_customers.sessions
unfolding find
two_customers-Keyed = (refl, (refl, tt))

abbrev promise : OutcomeWrite
promise = promised_write calendar in_call one_call.clock "2026-09-05"

-- The driver fails at the last audit row.
abbrev failing : World
failing = record one_call { faults = none ∷ none ∷ none ∷ none ∷ none ∷ some "disk full" ∷ [] }

record_outcome_atomic_example :
    (record_outcome promise end_session_allowed_from failing).1.db ≡ one_call.db
unfolding record_outcome outcome_body check_status write_outcome store_outcome link_conflict
    insert_events insert_audit_log transaction driver_call ◌>>=◌ find update Status-discrete
    promised_write
record_outcome_atomic_example = record_outcome_atomic promise end_session_allowed_from failing cc

record_outcome-Recorded_example :
    Recorded promise end_session_allowed_from one_call
      (record_outcome promise end_session_allowed_from one_call).1
unfolding record_outcome outcome_body check_status write_outcome store_outcome link_conflict
    insert_events insert_audit_log transaction driver_call ◌>>=◌ find update Status-discrete
    promised_write
record_outcome-Recorded_example =
    record_outcome-Recorded promise end_session_allowed_from one_call refl

abbrev after_promise : World
after_promise = (end_session calendar stub_client "call_1" "PROMISED" "2026-09-05" one_call).1

end_session-Ended_example :
    Ended calendar stub_client "call_1" "PROMISED" "2026-09-05" one_call after_promise
unfolding end_session end_found end_recordable link_for apply_write build_outcome_write
    promised_write get_session_by find_by record_outcome outcome_body check_status write_outcome
    store_outcome link_conflict insert_events insert_audit_log transaction driver_call ◌>>=◌ find
    update Status-discrete
end_session-Ended_example =
    end_session-Ended calendar stub_client "call_1" "PROMISED" "2026-09-05" one_call refl

end_session_once_example :
    Unrecorded after_promise (end_session calendar stub_client "call_1" "AGREED" "" after_promise)
unfolding end_session end_found end_recordable link_for apply_write build_outcome_write
    promised_write get_session_by find_by record_outcome outcome_body check_status write_outcome
    store_outcome link_conflict insert_events insert_audit_log transaction driver_call ◌>>=◌ find
    update Status-discrete
end_session_once_example =
    end_session_once calendar stub_client "call_1" "PROMISED" "2026-09-05" "AGREED" "" one_call
      after_promise one_call-Keyed refl refl refl

abbrev claimed : RecoverySession
claimed = claim "call_2" (now_sql two_customers) waiting

assign_next_pending-Picked_example :
    Picked "call_2" two_customers (assign_next_pending "call_2" two_customers).1 claimed
unfolding assign_next_pending claim_next bind_session claim transaction driver_call ◌>>=◌ candidates
    eligible_now still_contactable soonest taken_by_other get_session_by_id find update
assign_next_pending-Picked_example =
    assign_next_pending-Picked "call_2" two_customers claimed two_customers-Keyed refl
