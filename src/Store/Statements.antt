-- ===== src/Store/Statements.antt =====
-- The methods of store/db.go that insert and read single rows. Each statement is one driver call,
-- which may fail; what SQLite itself rejects is a failure too.
use vasuli.Prelude.{
  ℕ, ◌+◌, String, Bool, true, false, ◌&&◌, ◌||◌, Option, none, some, List, [], ◌∷◌, ◌++◌, ltb,
  str_eq, if◌then◌else◌,
}
use vasuli.Exec.{Exec, ok, err, other, gets, modify, ◌>>=◌, ◌>>◌}
use vasuli.World.{World, driver_call, because}
use vasuli.Store.Tables.{
  pending, running, Campaign, Account, RecoverySession, AuditEvent, current_timestamp,
}
use vasuli.Store.Rows.{find, find_by, taken_by_other}
use vasuli.Store.Schedule.{is_running}

abbrev pub now_sql : World → ℕ
now_sql w = current_timestamp w.clock

-- nullIfEmpty.
abbrev pub null_if_empty : String → Option String
null_if_empty s = if str_eq s "" then none else some s

-- SQLite's message for a violated key or unique index.
abbrev pub not_unique : String
not_unique = "UNIQUE constraint failed"

unfoldable pub find_campaign : String → List Campaign → Option Campaign
find_campaign id [] = none
find_campaign id (c ∷ cs) = if str_eq c.id id then some c else find_campaign id cs

abbrev pub is_some {ℓ} : {A : Type ℓ} → Option A → Bool
is_some none = false
is_some (some a) = true

-- Fails with the message if the test holds in the state reached.
abbrev pub reject_if : (World → Bool) → String → Exec World Unit
reject_if test what w = if test w then (err (other (because what not_unique)), w) else (ok tt, w)

abbrev pub set_sessions : (List RecoverySession → List RecoverySession) → World → World
set_sessions change w = record w { db = record w.db { sessions = change w.sessions } }

unfoldable pub insert_campaign : String → String → ℕ → Exec World Unit
unfolding find_campaign
insert_campaign id name total = do
  driver_call "store: insert campaign"
  reject_if (λ w. is_some (find_campaign id w.campaigns)) "store: insert campaign"
  modify λ w. record w {
    db = record w.db {
      campaigns =
          w.campaigns
          ++ record {
            id = id;
            name = name;
            total = total;
            status = running;
            created_at = now_sql w;
          }
            ∷ [];
    };
  }

-- The row that the INSERT of InsertRecoverySession makes, with the defaults of schema.sql.
abbrev pub new_session : String → String → String → Account → ℕ → RecoverySession
new_session id campaign_id system_prompt acc now = record {
  id = id;
  campaign_id = campaign_id;
  call_session_id = none;
  customer_name = acc.customer_name;
  outstanding_paise = acc.outstanding_paise;
  product_name = acc.product_name;
  due_date = acc.due_date;
  razorpay_payment_id = null_if_empty acc.razorpay_payment_id;
  system_prompt = system_prompt;
  status = pending;
  promise_date = none;
  razorpay_link_id = none;
  contact_attempts = 0;
  max_contact_attempts = 3;
  created_at = now;
  call_started_at = none;
  call_ended_at = none;
  recovered_at = none;
  next_eligible_at = some now;
  zoned = false;
}

abbrev pub some_taken :
    (RecoverySession → Option String) → String → Option String → List RecoverySession → Bool
some_taken column self none rs = false
some_taken column self (some value) rs = taken_by_other column self value rs

-- The primary key, or the unique index on the payment id where it exists, refuses the row.
unfoldable pub session_conflict : RecoverySession → World → Bool
session_conflict r w =
    is_some (find r.id w.sessions)
    || (w.indexes.by_payment
        && some_taken (λ s. s.razorpay_payment_id) r.id r.razorpay_payment_id w.sessions)

-- The row is checked and added.
unfoldable pub add_session : RecoverySession → Exec World Unit
unfolding session_conflict
add_session r = do
  reject_if (session_conflict r) "store: insert recovery session"
  modify (set_sessions λ rs. rs ++ r ∷ [])

unfoldable pub insert_recovery_session : String → String → String → Account → Exec World Unit
unfolding add_session
insert_recovery_session id campaign_id system_prompt acc = do
  driver_call "store: insert recovery session"
  now ← gets now_sql
  add_session (new_session id campaign_id system_prompt acc now)

unfoldable pub get_campaign : String → Exec World (Option Campaign)
get_campaign id = do driver_call "store: get campaign"; gets λ w. find_campaign id w.campaigns

unfoldable pub get_session_by_id : String → Exec World (Option RecoverySession)
get_session_by_id id = do driver_call "store: scan recovery session"; gets λ w. find id w.sessions

-- The three lookups by a nullable column.
unfoldable pub get_session_by :
    (RecoverySession → Option String) → String → Exec World (Option RecoverySession)
get_session_by column value = do
  driver_call "store: scan recovery session"
  gets λ w. find_by column value w.sessions

abbrev pub get_session_by_call_session_id : String → Exec World (Option RecoverySession)
get_session_by_call_session_id = get_session_by λ r. r.call_session_id

abbrev pub get_session_by_razorpay_payment_id : String → Exec World (Option RecoverySession)
get_session_by_razorpay_payment_id = get_session_by λ r. r.razorpay_payment_id

abbrev pub get_session_by_razorpay_link_id : String → Exec World (Option RecoverySession)
get_session_by_razorpay_link_id = get_session_by λ r. r.razorpay_link_id

abbrev newer : Campaign → Option Campaign → Option Campaign
newer c none = some c
newer c (some d) = if ltb c.created_at d.created_at then some d else some c

-- `WHERE status = 'active' ORDER BY created_at DESC LIMIT 1`.
unfoldable pub newest_running : List Campaign → Option Campaign
newest_running [] = none
newest_running (c ∷ cs) =
    let rest = newest_running cs in if is_running c.status then newer c rest else rest

unfoldable pub get_most_recent_active_campaign : Exec World (Option Campaign)
unfolding newest_running
get_most_recent_active_campaign = do
  driver_call "store: get active campaign"
  gets λ w. newest_running w.campaigns

unfoldable pub add_one : String → List Campaign → List Campaign
add_one id [] = []
add_one id (c ∷ cs) =
    if str_eq c.id id then record c { total = c.total + 1 } ∷ cs else c ∷ add_one id cs

unfoldable pub increment_campaign_total : String → Exec World Unit
unfolding add_one
increment_campaign_total id = do
  driver_call "store: increment campaign total"
  modify λ w. record w { db = record w.db { campaigns = add_one id w.campaigns } }

abbrev pub append_event : String → AuditEvent → World → World
append_event session_id e w = record w {
  db = record w.db {
    audit_log =
        w.audit_log ++ record { session_id = session_id; event = e; created_at = now_sql w } ∷ [];
  };
}

-- InsertAuditLog and insertAuditLogTx.
unfoldable pub insert_audit_log : String → AuditEvent → Exec World Unit
insert_audit_log session_id e = do
  driver_call "store: insert audit log"
  modify (append_event session_id e)
