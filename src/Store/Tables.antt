-- ===== src/Store/Tables.antt =====
-- recovery-orchestrator/internal/store/schema.sql and the row types of store/db.go: the three
-- tables as lists of rows in the order of insertion. Instants are nanoseconds since Go's zero time; a NULL is `none`.
use vasuli.Prelude.{ℕ, ℤ, ◌+◌, ◌*◌, ◌/◌, String, Bool, Option, List, if◌then◌else◌}

-- The CHECK constraint of `recovery_sessions.status`.
pub data Status : Type 0 where
  pending active link_sent promised refused unclear recovered failed : Status

-- The CHECK constraint of `campaigns.status`.
pub data CampaignStatus : Type 0 where
  running completed paused : CampaignStatus

pub record Campaign : Type 0 where
  pub id : String
  pub name : String
  pub total : ℕ
  pub status : CampaignStatus
  pub created_at : ℕ

pub record Account : Type 0 where
  pub customer_name : String
  pub outstanding_paise : ℤ
  pub product_name : String
  pub due_date : String
  pub razorpay_payment_id : String

pub record RecoverySession : Type 0 where
  pub id : String
  pub campaign_id : String
  pub call_session_id : Option String
  pub customer_name : String
  pub outstanding_paise : ℤ
  pub product_name : String
  pub due_date : String
  pub razorpay_payment_id : Option String
  pub system_prompt : String
  pub status : Status
  pub promise_date : Option String
  pub razorpay_link_id : Option String
  pub contact_attempts : ℕ
  pub max_contact_attempts : ℕ
  pub created_at : ℕ
  pub call_started_at : Option ℕ
  pub call_ended_at : Option ℕ
  pub recovered_at : Option ℕ
  pub next_eligible_at : Option ℕ
  pub zoned : Bool

-- next_eligible_at is a text, which compares as a text. CURRENT_TIMESTAMP writes a whole second, and
-- the driver writes a time of Go with its fraction and its zone behind (`zoned`), so that among the
-- texts of one instant that of Go is the greater. `text_rank` orders the texts.
abbrev pub text_rank : ℕ → Bool → ℕ
text_rank at zoned = 2 * at + (if zoned then 1 else 0)

-- One value of the `map[string]any` that an audit row carries as JSON.
pub data Datum : Type 0 where
  text : String → Datum
  paise : ℤ → Datum
  instant : Option ℕ → Datum

abbrev pub Payload : Type 0
Payload = List (String × Datum)

pub record AuditEvent : Type 0 where
  pub event_type : String
  pub event_data : Payload

pub record AuditRow : Type 0 where
  pub session_id : String
  pub event : AuditEvent
  pub created_at : ℕ

-- Which of the three partial unique indexes could be created at startup.
pub record UniqueIndexes : Type 0 where
  pub by_call : Bool
  pub by_payment : Bool
  pub by_link : Bool

pub record Database : Type 0 where
  pub campaigns : List Campaign
  pub sessions : List RecoverySession
  pub audit_log : List AuditRow
  pub indexes : UniqueIndexes

abbrev pub second : ℕ
second = 1000000000

-- 24 hours.
abbrev pub day : ℕ
day = 24 * 60 * 60 * second

-- CURRENT_TIMESTAMP has whole seconds.
abbrev pub current_timestamp : ℕ → ℕ
current_timestamp now = now / second * second
