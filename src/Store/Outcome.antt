-- ===== src/Store/Outcome.antt =====
-- RecordOutcome, SetNextEligibleAt and MarkRecovered of store/db.go: the statements that close or
-- reschedule a session.
use vasuli.Prelude.{
  ℕ, String, Bool, true, false, ◌&&◌, ◌||◌, Option, none, some, List, [], ◌∷◌, str_eq,
  if◌then◌else◌, ite,
}
use vasuli.Exec.{Exec, other, pure, raise, gets, modify, ◌>>=◌, ◌>>◌}
use vasuli.World.{World, driver_call, transaction}
use vasuli.Store.Tables.{Status, recovered, RecoverySession, AuditEvent}
use vasuli.Store.Rows.{find, update}
use vasuli.Store.Statements.{
  now_sql, reject_if, set_sessions, null_if_empty, insert_audit_log, some_taken,
}

unfoldable pub Status-discrete : Discrete Status
Status-discrete = hlevel

-- slices.Contains.
abbrev pub one_of : List Status → Status → Bool
one_of [] s = false
one_of (t ∷ ts) s = ite (Status-discrete t s) true false || one_of ts s

pub record OutcomeWrite : Type 0 where
  pub session_id : String
  pub status : Status
  pub promise_date : String
  pub razorpay_link_id : String
  pub events : List AuditEvent
  pub next_eligible_at : Option ℕ

-- `COALESCE(NULLIF(?, ''), column)`.
abbrev pub coalesce : String → Option String → Option String
coalesce new old = if str_eq new "" then old else some new

-- The SET of RecordOutcome.
unfoldable pub apply_outcome : OutcomeWrite → ℕ → RecoverySession → RecoverySession
apply_outcome o now r = record r {
  status = o.status;
  call_ended_at = some now;
  promise_date = coalesce o.promise_date r.promise_date;
  razorpay_link_id = coalesce o.razorpay_link_id r.razorpay_link_id;
  next_eligible_at = o.next_eligible_at;
  zoned = true;
}

unfoldable pub insert_events : String → List AuditEvent → Exec World Unit
insert_events id [] = pure tt
insert_events id (e ∷ es) = do insert_audit_log id e; insert_events id es

-- The UPDATE that passed its constraint, the audit rows and the Commit.
unfoldable pub store_outcome : OutcomeWrite → Exec World Bool
unfolding apply_outcome insert_events
store_outcome o = do
  now ← gets now_sql
  modify (set_sessions (update o.session_id (apply_outcome o now)))
  insert_events o.session_id o.events
  driver_call "store: commit outcome"
  pure true

-- The link belongs to another session already, and the index on it exists.
unfoldable pub link_conflict : OutcomeWrite → World → Bool
link_conflict o w =
    w.indexes.by_link
    && some_taken (λ s. s.razorpay_link_id) o.session_id (null_if_empty o.razorpay_link_id)
        w.sessions

unfoldable pub write_outcome : OutcomeWrite → Exec World Bool
unfolding store_outcome link_conflict
write_outcome o = do
  driver_call "store: apply outcome"
  reject_if (link_conflict o) "store: apply outcome"
  store_outcome o

-- What follows the SELECT of the current status.
unfoldable pub check_status : OutcomeWrite → List Status → Option RecoverySession → Exec World Bool
unfolding write_outcome
check_status o allowed none = raise (other "store: no session")
check_status o allowed (some r) = if one_of allowed r.status then write_outcome o else pure false

unfoldable pub outcome_body : OutcomeWrite → List Status → Exec World Bool
unfolding check_status
outcome_body o allowed = do
  driver_call "store: read status for outcome"
  current ← gets λ w. find o.session_id w.sessions
  check_status o allowed current

unfoldable pub record_outcome : OutcomeWrite → List Status → Exec World Bool
unfolding outcome_body
record_outcome o allowed = do
  driver_call "store: begin outcome tx"
  transaction (outcome_body o allowed)

unfoldable pub set_next_eligible_at : String → ℕ → Exec World Unit
set_next_eligible_at id at = do
  driver_call "store: set next eligible at"
  modify (set_sessions (update id λ r. record r { next_eligible_at = some at; zoned = true }))

abbrev pub is_recovered : Status → Bool
is_recovered recovered = true
is_recovered _ = false

-- The SET of MarkRecovered.
unfoldable pub settle_row : ℕ → RecoverySession → RecoverySession
settle_row now r = record r { status = recovered; recovered_at = some now; next_eligible_at = none }

-- The row that `WHERE id = ? AND status != 'recovered'` would change.
abbrev pub is_open : Option RecoverySession → Bool
is_open none = false
is_open (some r) = if is_recovered r.status then false else true

-- The UPDATE, and whether it changed a row.
unfoldable pub settle_open : String → Exec World Bool
unfolding settle_row
settle_open id = do
  changed ← gets λ w. is_open (find id w.sessions)
  now ← gets now_sql
  modify (set_sessions λ rs. if changed then update id (settle_row now) rs else rs)
  pure changed

unfoldable pub mark_recovered : String → Exec World Bool
unfolding settle_open
mark_recovered id = do
  driver_call "store: mark recovered"
  changed ← settle_open id
  driver_call "store: mark recovered rows affected"
  pure changed
