-- ===== src/Api/Response.antt =====
-- The answers of internal/api/handlers.go.
use vasuli.Prelude.{ℕ, ℤ, String, List}
use vasuli.World.{World}
use vasuli.Store.Tables.{Campaign, RecoverySession}
use vasuli.Store.Reports.{Metrics, QueueEntry}

-- An entry of the queue view: the fields that the handler computes beside those of the row.
pub record QueueEntryResponse : Type 0 where
  pub entry : QueueEntry
  pub outstanding_rupees : ℤ
  pub shown_next_eligible_at : List ℕ
  pub reason : String

-- What the body of an answer is made from.
pub data Body : Type 0 where
  failure : String → Body
  status_ok : Body
  status_ok_noted : String → Body
  campaign_created : Campaign → Body
  session_context : RecoverySession → Body
  metrics_report : Campaign → Metrics → ℤ → ℤ → Body
  queue_report :
      Campaign → List QueueEntryResponse → List QueueEntryResponse → List QueueEntryResponse → Body

pub record Response : Type 0 where
  pub code : ℕ
  pub body : Body

-- A handler: it always answers.
abbrev pub Handler : Type 0
Handler = World → Response × World

abbrev pub write_json : ℕ → Body → Response
write_json code body = record { code = code; body = body }

abbrev pub write_error : ℕ → String → Response
write_error code message = write_json code (failure message)
