-- ===== src/Store/Schedule.antt =====
-- The stopping rules as store/db.go states them in SQL: `stillContactable`, `eligibleNow`, the
-- candidates of the assignment query, and the buckets of the queue view.
use vasuli.Prelude.{
  ℕ, Bool, true, false, ◌&&◌, ◌||◌, Option, none, some, List, [], ◌∷◌, ltb, leb, str_eq, select,
  if◌then◌else◌,
}
use vasuli.Store.Tables.{
  text_rank, Status, pending, link_sent, promised, unclear, CampaignStatus, running, Campaign,
  RecoverySession, Database,
}

-- `rs.status IN ('pending', 'unclear', 'link_sent', 'promised')`.
abbrev pub is_callable : Status → Bool
is_callable pending = true
is_callable unclear = true
is_callable link_sent = true
is_callable promised = true
is_callable _ = false

abbrev is_scheduled : Option ℕ → Bool
is_scheduled none = false
is_scheduled (some at) = true

-- `next_eligible_at <= CURRENT_TIMESTAMP`, as texts.
abbrev is_due : ℕ → Option ℕ → Bool → Bool
is_due now none zoned = false
is_due now (some at) zoned = leb (text_rank at zoned) (text_rank now false)

unfoldable pub still_contactable : RecoverySession → Bool
still_contactable r =
    is_scheduled r.next_eligible_at
    && ltb r.contact_attempts r.max_contact_attempts
    && is_callable r.status

-- `now` is CURRENT_TIMESTAMP.
unfoldable pub eligible_now : ℕ → RecoverySession → Bool
unfolding still_contactable
eligible_now now r = still_contactable r && is_due now r.next_eligible_at r.zoned

abbrev pub is_running : CampaignStatus → Bool
is_running running = true
is_running _ = false

-- `JOIN campaigns c ON c.id = rs.campaign_id WHERE c.status = 'active'`.
abbrev pub in_active_campaign : List Campaign → RecoverySession → Bool
in_active_campaign [] r = false
in_active_campaign (c ∷ cs) r =
    (str_eq c.id r.campaign_id && is_running c.status) || in_active_campaign cs r

-- The `FROM` and `WHERE` of the query in AssignNextPending.
unfoldable pub candidates : Database → ℕ → List RecoverySession
candidates db now =
    select (λ r. in_active_campaign db.campaigns r && eligible_now now r) db.sessions

pub data Bucket : Type 0 where
  due_now on_hold closed : Bucket

-- The CASE expression of CampaignQueue.
unfoldable pub bucket : ℕ → RecoverySession → Bucket
unfolding eligible_now
bucket now r =
    if eligible_now now r then due_now else if still_contactable r then on_hold else closed
