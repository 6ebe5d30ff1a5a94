-- ===== src/Examples/Views.antt =====
-- The theorems on the queue view and the metrics at the two worlds.
use vasuli.Prelude.{◌≡◌, refl, some, List, [], ◌∷◌, ◌+◌, length, count, negsuc}
use vasuli.Exec.{◌>>=◌}
use vasuli.World.{driver_call, transaction}
use vasuli.Store.Tables.{Campaign, running, RecoverySession, active, link_sent}
use vasuli.Store.Rows.{find, update, soonest, taken_by_other, ordered, insert_ordered}
use vasuli.Store.Schedule.{
  bucket, due_now, on_hold, closed, candidates, eligible_now, still_contactable,
}
use vasuli.Store.Statements.{now_sql, get_session_by_id, get_campaign, find_campaign}
use vasuli.Store.Assign.{claim, bind_session, claim_next, assign_next_pending}
use vasuli.Store.Outcome.{Status-discrete}
use vasuli.Store.Reports.{
  QueueEntry, Metrics, metrics_of, in_campaign, campaign_metrics, campaign_queue,
}
use vasuli.Lifecycle.Tables.{Keyed}
use vasuli.Scheduling.Choice.{called_row}
use vasuli.Scheduling.Queue.{first_due, campaign_queue-assign_next_pending}
use vasuli.Scheduling.Totals.{rows_with, campaign_metrics_total}
use vasuli.Api.Calls.{CreateAccountRequest}
use vasuli.Api.Views.{bucket_entries, get_queue}
use vasuli.Api.QueueView.{get_queue-total}
use vasuli.Examples.Data.{escalated, waiting, two_customers}

two_customers-Keyed : Keyed two_customers.sessions
unfolding find
two_customers-Keyed = (refl, (refl, tt))

abbrev shown : List QueueEntry
shown =
    record { row = escalated; bucket_of = closed }
    ∷ record { row = waiting; bucket_of = due_now }
    ∷ []

campaign_queue-assign_next_pending_example :
    (r : RecoverySession) × (q : RecoverySession) × (claim "call_2" (now_sql two_customers) waiting
      ≡ called_row "call_2" (now_sql two_customers) r)
    × (first_due shown ≡ some q)
    × (q.next_eligible_at ≡ r.next_eligible_at)
    × (q.created_at ≡ r.created_at)
unfolding assign_next_pending claim_next bind_session claim transaction driver_call ◌>>=◌ candidates
    eligible_now still_contactable soonest taken_by_other get_session_by_id find update
    campaign_queue ordered insert_ordered bucket
campaign_queue-assign_next_pending_example =
    campaign_queue-assign_next_pending "call_2" two_customers two_customers
      (claim "call_2" (now_sql two_customers) waiting) shown two_customers-Keyed refl refl refl refl

abbrev numbers : Metrics
numbers = metrics_of "camp_1" two_customers.db

campaign_metrics_total_example :
    (numbers.total_accounts ≡ numbers.contacted + numbers.pending_count)
    × (numbers.contacted
        ≡ rows_with active "camp_1" two_customers
          + rows_with link_sent "camp_1" two_customers
          + numbers.promised_count
          + numbers.refused_count
          + numbers.unclear_count
          + numbers.recovered_count
          + numbers.stopped_max_attempts)
unfolding campaign_metrics driver_call ◌>>=◌ Status-discrete
campaign_metrics_total_example = campaign_metrics_total "camp_1" two_customers numbers refl

abbrev august : Campaign
august = record { id = "camp_1"; name = "August"; total = 2; status = running; created_at = 0 }

get_queue-total_example :
    length (bucket_entries due_now shown)
      + length (bucket_entries on_hold shown)
      + length (bucket_entries closed shown)
    ≡ count (in_campaign "camp_1") two_customers.sessions
unfolding get_queue get_campaign find_campaign driver_call ◌>>=◌ campaign_queue ordered
    insert_ordered bucket eligible_now still_contactable
get_queue-total_example =
    get_queue-total "camp_1" two_customers august (bucket_entries due_now shown)
      (bucket_entries on_hold shown) (bucket_entries closed shown) refl

abbrev account_request : CreateAccountRequest
account_request = record {
  customer_name = "Asha";
  outstanding_rupees = negsuc 41;
  product_name = "loan";
  due_date = "2026-08-15";
  razorpay_payment_id = "";
}
