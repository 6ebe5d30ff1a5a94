-- ===== src/Store/Reports.antt =====
-- CampaignQueue, CampaignMetrics and AuditEventsForSession of store/db.go: the queries that report.
use vasuli.Prelude.{
  ℕ, ℤ, pos, String, Bool, true, false, ◌&&◌, not, Option, none, some, List, [], ◌∷◌, map, str_eq,
  count, select, ◌+ℤ◌, fits_i64,
}
use vasuli.Exec.{Exec, other, pure, raise, gets, ◌>>=◌, ◌>>◌}
use vasuli.World.{World, queue_view, ranked, driver_call}
use vasuli.Store.Tables.{
  Status, pending, recovered, promised, refused, unclear, failed, RecoverySession, AuditRow,
  Database,
}
use vasuli.Store.Rows.{find, ordered}
use vasuli.Store.Schedule.{Bucket, bucket}
use vasuli.Store.Statements.{now_sql, is_some}
use vasuli.Store.Outcome.{one_of}

-- `WHERE campaign_id = ?`.
abbrev pub in_campaign : String → RecoverySession → Bool
in_campaign campaign_id r = str_eq r.campaign_id campaign_id

-- The columns of a queue entry that come from the row as they are are kept as the row.
pub record QueueEntry : Type 0 where
  pub row : RecoverySession
  pub bucket_of : Bucket

abbrev pub queue_entry : ℕ → RecoverySession → QueueEntry
queue_entry now r = record { row = r; bucket_of = bucket now r }

unfoldable pub campaign_queue : String → Exec World (List QueueEntry)
campaign_queue campaign_id = do
  driver_call "store: campaign queue"
  gets λ w.
      map (queue_entry (now_sql w))
        (ordered (ranked queue_view w) (select (in_campaign campaign_id) w.sessions))

pub record Metrics : Type 0 where
  pub total_accounts : ℕ
  pub contacted : ℕ
  pub recovered_count : ℕ
  pub recovered_amount_paise : ℤ
  pub promised_count : ℕ
  pub promised_amount_paise : ℤ
  pub refused_count : ℕ
  pub unclear_count : ℕ
  pub pending_count : ℕ
  pub stopped_max_attempts : ℕ
  pub payment_links_sent : ℕ
  pub razorpay_captured : ℕ

abbrev pub has_status : Status → RecoverySession → Bool
has_status s r = one_of (s ∷ []) r.status

-- SUM of outstanding_paise, 0 for no rows.
abbrev pub sum_paise : List RecoverySession → ℤ
sum_paise [] = pos 0
sum_paise (r ∷ rs) = r.outstanding_paise +ℤ sum_paise rs

-- The partial sums of SUM, which SQLite refuses when one of them leaves the 64 bits.
abbrev pub sums_fit : ℤ → List RecoverySession → Bool
sums_fit acc [] = true
sums_fit acc (r ∷ rs) =
    let next = acc +ℤ r.outstanding_paise in let rest = sums_fit next rs in fits_i64 next && rest

abbrev has_link : RecoverySession → Bool
has_link r = is_some r.razorpay_link_id

-- The row of the second query's join: an audit row of a session of the campaign.
abbrev is_capture_in : String → List RecoverySession → AuditRow → Bool
is_capture_in campaign_id rs a =
    str_eq a.event.event_type "payment_captured" && belongs (find a.session_id rs)
  where
    belongs : Option RecoverySession → Bool
    belongs none = false
    belongs (some r) = in_campaign campaign_id r

-- The numbers of the two queries over these tables.
unfoldable pub metrics_of : String → Database → Metrics
metrics_of campaign_id db =
    let rs = select (in_campaign campaign_id) db.sessions in
    record {
      total_accounts = count (λ r. true) rs;
      contacted = count (λ r. not (has_status pending r)) rs;
      recovered_count = count (has_status recovered) rs;
      recovered_amount_paise = sum_paise (select (has_status recovered) rs);
      promised_count = count (has_status promised) rs;
      promised_amount_paise = sum_paise (select (has_status promised) rs);
      refused_count = count (has_status refused) rs;
      unclear_count = count (has_status unclear) rs;
      pending_count = count (has_status pending) rs;
      stopped_max_attempts = count (has_status failed) rs;
      payment_links_sent = count has_link rs;
      razorpay_captured = count (is_capture_in campaign_id db.sessions) db.audit_log;
    }

abbrev pub amounts_fit : String → Database → Bool
amounts_fit campaign_id db =
    let rs = select (in_campaign campaign_id) db.sessions in
    sums_fit (pos 0) (select (has_status recovered) rs)
    && sums_fit (pos 0) (select (has_status promised) rs)

-- The result of the first query.
abbrev pub check_sums : Bool → Exec World Unit
check_sums true = pure tt
check_sums false = raise (other "store: campaign metrics: integer overflow")

unfoldable pub campaign_metrics : String → Exec World Metrics
unfolding metrics_of
campaign_metrics campaign_id = do
  driver_call "store: campaign metrics"
  fit ← gets λ w. amounts_fit campaign_id w.db
  check_sums fit
  driver_call "store: campaign metrics captured count"
  gets λ w. metrics_of campaign_id w.db

unfoldable pub audit_events_for_session : String → Exec World (List String)
audit_events_for_session session_id = do
  driver_call "store: audit events"
  gets λ w. map (λ a. a.event.event_type) (select (λ a. str_eq a.session_id session_id) w.audit_log)
