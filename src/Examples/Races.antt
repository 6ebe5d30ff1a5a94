-- ===== src/Examples/Races.antt =====
-- Two reports of one call at once.
use vasuli.Prelude.{
  ℕ, ◌≤◌, ◌≡◌, refl, none, some, List, [], ◌∷◌, map, All, ◌*◌, arith, Option, String,
}
use vasuli.Exec.{ok, err, outcome_already_recorded, ◌>>=◌}
use vasuli.World.{World, bytes, driver_call, transaction, random_id}
use vasuli.Store.Tables.{Status, link_sent, refused, day}
use vasuli.Store.Rows.{find, find_by, update, soonest, taken_by_other}
use vasuli.Store.Schedule.{candidates, eligible_now, still_contactable}
use vasuli.Store.Statements.{now_sql, get_session_by, get_session_by_id, insert_audit_log}
use vasuli.Store.Assign.{claim, bind_session, claim_next, assign_next_pending}
use vasuli.Store.Outcome.{
  Status-discrete, apply_outcome, insert_events, store_outcome, link_conflict, write_outcome,
  check_status, outcome_body, record_outcome,
}
use vasuli.Campaign.Outcome.{build_outcome_write, agreed_write, unclear_write}
use vasuli.Razorpay.Clients.{stub_client, stub_create}
use vasuli.Lifecycle.Moves.{IsWithinBudget}
use vasuli.Concurrency.Alone.{result_of}
use vasuli.Concurrency.{
  advance, proceed_at, Event, arrive, go_on, other_call, wait, assign, call_store, Service, happen,
  happens,
}
use vasuli.Concurrency.ClosedCalls.{IsCalled}
use vasuli.Concurrency.Decisions.{decisions, decisions-le-calls, quiet}
use vasuli.Examples.Data.{calendar, in_call, one_call}
use vasuli.Examples.Calls.{one_call-Keyed}

abbrev start : World
start = record one_call { entropy = bytes "00000000000000aa" ∷ bytes "00000000000000bb" ∷ [] }

-- Both look before either has recorded.
abbrev both_agreed : List Event
both_agreed =
    arrive "call_1" "AGREED" ""
    ∷ arrive "call_1" "AGREED" ""
    ∷ go_on 0
    ∷ go_on 1
    ∷ go_on 0
    ∷ go_on 1
    ∷ go_on 0
    ∷ go_on 1
    ∷ []

abbrev after_both : Service
after_both = happens calendar stub_client both_agreed (quiet start)

-- One is recorded and the other is told so, and the provider has drawn the
-- ids of two links.
both_agreed-results :
    (map result_of after_both.requests ≡ some (ok tt) ∷ some (err outcome_already_recorded) ∷ [])
    × (after_both.world.entropy ≡ [])
unfolding happens happen proceed_at advance get_session_by find_by find driver_call ◌>>=◌
    stub_create random_id build_outcome_write agreed_write record_outcome outcome_body check_status
    write_outcome store_outcome link_conflict insert_events insert_audit_log transaction update
    Status-discrete taken_by_other apply_outcome
both_agreed-results = (refl, refl)

-- A report that is slow: a second report of the same call records UNCLEAR, and the customer is called
-- again before the first one records that they agreed.
abbrev stale : List Event
stale =
    arrive "call_1" "AGREED" ""
    ∷ arrive "call_1" "UNCLEAR" ""
    ∷ go_on 0
    ∷ go_on 1
    ∷ go_on 1
    ∷ other_call (wait (30 * day))
    ∷ other_call (assign "call_2")
    ∷ go_on 0
    ∷ go_on 0
    ∷ []

abbrev after_stale : Service
after_stale = happens calendar stub_client stale (quiet start)

-- The session is in the second call, and the outcome of the first one is recorded for it.
stale-results :
    (map result_of after_stale.requests ≡ some (ok tt) ∷ some (ok tt) ∷ [])
    × (map {B = Option String × Status × ℕ}
          (λ r. (r.call_session_id, r.status, r.contact_attempts))
          after_stale.world.sessions
        ≡ (none, refused, 1) ∷ (some "call_2", link_sent, 2) ∷ [])
unfolding happens happen proceed_at advance get_session_by find_by find driver_call ◌>>=◌
    stub_create random_id build_outcome_write agreed_write unclear_write record_outcome outcome_body
    check_status write_outcome store_outcome link_conflict insert_events insert_audit_log
    transaction update Status-discrete taken_by_other apply_outcome call_store assign_next_pending
    claim_next bind_session claim candidates eligible_now still_contactable soonest
    get_session_by_id
stale-results = (refl, refl)

start-IsCalled : All IsCalled start.sessions
start-IsCalled = (record { called = omega arith }, (record { called = omega arith }, tt))

start-IsWithinBudget : All IsWithinBudget start.sessions
start-IsWithinBudget = (
  record { budget = refl; spent = omega arith },
  (record { budget = refl; spent = omega arith }, tt),
)

decisions-le-calls_example : (decisions "rec_3" after_both.requests ≤ 1) × (◌≤◌ 1 3)
unfolding happens happen proceed_at advance get_session_by find_by find driver_call ◌>>=◌
    stub_create random_id build_outcome_write agreed_write record_outcome outcome_body check_status
    write_outcome store_outcome link_conflict insert_events insert_audit_log transaction update
    Status-discrete taken_by_other apply_outcome
decisions-le-calls_example =
    decisions-le-calls calendar stub_client both_agreed start "rec_3"
      (apply_outcome
        (agreed_write in_call start.clock
          (record { id = "plink_stub_00000000000000aa"; short_url = "https://rzp.io/i/000000aa" }))
        (now_sql start) in_call)
      one_call-Keyed start-IsCalled start-IsWithinBudget refl
