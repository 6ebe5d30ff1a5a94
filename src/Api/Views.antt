-- ===== src/Api/Views.antt =====
-- CampaignMetrics, CampaignQueue, closedReason and Health of internal/api/handlers.go.
use vasuli.Prelude.{
  ℕ, String, Bool, true, false, Option, none, some, List, [], ◌∷◌, map, select, quot,
}
use vasuli.Exec.{Result, ok, err}
use vasuli.World.{World}
use vasuli.Store.Tables.{Campaign, Status, recovered, refused, failed}
use vasuli.Store.Schedule.{Bucket, due_now, on_hold, closed}
use vasuli.Store.Statements.{get_campaign}
use vasuli.Store.Reports.{Metrics, QueueEntry, campaign_metrics, campaign_queue}
use vasuli.Api.Response.{
  Response, Handler, QueueEntryResponse, status_ok, metrics_report, queue_report, write_json,
  write_error,
}

unfoldable pub closed_reason : Status → String
closed_reason recovered = "payment confirmed"
closed_reason refused = "escalated to human agent"
closed_reason failed = "contact attempts exhausted"
closed_reason _ = "no further contact scheduled"

-- NextEligibleAt is filled for an entry on hold, and left out of the answer for the others.
abbrev shown_for : Bucket → Option ℕ → List ℕ
shown_for on_hold (some at) = at ∷ []
shown_for _ _ = []

abbrev reason_for : Bucket → Status → String
reason_for closed status = closed_reason status
reason_for _ status = ""

unfoldable pub entry_response : QueueEntry → QueueEntryResponse
unfolding closed_reason
entry_response e = record {
  entry = e;
  outstanding_rupees = quot e.row.outstanding_paise 100;
  shown_next_eligible_at = shown_for e.bucket_of e.row.next_eligible_at;
  reason = reason_for e.bucket_of e.row.status;
}

abbrev pub is_bucket : Bucket → Bucket → Bool
is_bucket due_now due_now = true
is_bucket on_hold on_hold = true
is_bucket closed closed = true
is_bucket _ _ = false

-- `buckets[name]` after the loop over the entries.
abbrev pub bucket_entries : Bucket → List QueueEntry → List QueueEntryResponse
bucket_entries b es = map entry_response (select (λ e. is_bucket b e.bucket_of) es)

abbrev metrics_answer : Campaign → Result Metrics → Response
metrics_answer c (ok m) =
    write_json 200
      (metrics_report c m (quot m.recovered_amount_paise 100) (quot m.promised_amount_paise 100))
metrics_answer c (err e) = write_error 500 "failed to compute metrics"

abbrev metrics_found : String → Result (Option Campaign) × World → Response × World
metrics_found id (err e, w) = (write_error 500 "failed to load campaign", w)
metrics_found id (ok none, w) = (write_error 404 "campaign not found", w)
metrics_found id (ok (some c), w) = let (r, w') = campaign_metrics id w in (metrics_answer c r, w')

-- CampaignMetrics; Manager.Metrics only passes the call on.
unfoldable pub get_metrics : String → Handler
get_metrics id w = metrics_found id (get_campaign id w)

abbrev pub queue_answer : Campaign → Result (List QueueEntry) → Response
queue_answer c (ok es) = write_json 200 (
    queue_report c (bucket_entries due_now es) (bucket_entries on_hold es)
      (bucket_entries closed es))
queue_answer c (err e) = write_error 500 "failed to load queue"

abbrev pub queue_found : String → Result (Option Campaign) × World → Response × World
queue_found id (err e, w) = (write_error 500 "failed to load campaign", w)
queue_found id (ok none, w) = (write_error 404 "campaign not found", w)
queue_found id (ok (some c), w) = let (r, w') = campaign_queue id w in (queue_answer c r, w')

unfoldable pub get_queue : String → Handler
unfolding entry_response
get_queue id w = queue_found id (get_campaign id w)

unfoldable pub health : Handler
health w = (write_json 200 status_ok, w)
