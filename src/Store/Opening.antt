-- ===== src/Store/Opening.antt =====
-- Open of store/db.go: the schema, migrate with hasColumn, and applyUniqueIndexes.
use vasuli.Prelude.{
  ℕ, String, Bool, true, false, Option, none, some, List, [], ◌∷◌, map, ◌||◌, str_eq, if◌then◌else◌,
}
use vasuli.Exec.{Exec, ok, err, other, pure, gets, modify, attempt, ◌>>=◌, ◌>>◌}
use vasuli.World.{World, driver_call, because}
use vasuli.Store.Tables.{
  Status, pending, active, unclear, link_sent, promised, RecoverySession, UniqueIndexes, Database,
}
use vasuli.Store.Statements.{not_unique}
use vasuli.Store.Shared.{shared}

-- What Open finds: no tables, those of the schema before next_eligible_at, or those of schema.sql.
pub data Version : Type 0 where
  without_tables without_next_eligible_at up_to_date : Version

-- The rows of a table without next_eligible_at have no value there; the field is not read.
pub record File : Type 0 where
  pub version : Version
  pub world : World

abbrev empty_database : Database
empty_database = record {
  campaigns = [];
  sessions = [];
  audit_log = [];
  indexes = record { by_call = false; by_payment = false; by_link = false };
}

abbrev pub on_world : {A : Type 0} → Exec World A → Exec File A
on_world m f = let (r, w) = m f.world in (r, record f { world = w })

abbrev pub apply_failure : String
apply_failure = "store: failed to apply schema"

-- The columns of recovery_sessions, those of the keys and of schema.sql's indexes first.
abbrev pub earlier_columns : List String
earlier_columns =
    "id" ∷ "campaign_id" ∷ "status" ∷ "call_session_id" ∷ "customer_name" ∷ "outstanding_paise"
    ∷ "product_name" ∷ "due_date" ∷ "razorpay_payment_id" ∷ "system_prompt" ∷ "promise_date"
    ∷ "razorpay_link_id" ∷ "contact_attempts" ∷ "max_contact_attempts" ∷ "created_at"
    ∷ "call_started_at" ∷ "call_ended_at" ∷ "recovered_at" ∷ []

abbrev pub columns : Version → List String
columns without_tables = []
columns without_next_eligible_at = earlier_columns
columns up_to_date = "next_eligible_at" ∷ earlier_columns

unfoldable pub has_name : String → List String → Bool
has_name name [] = false
has_name name (c ∷ cs) = str_eq c name || has_name name cs

-- The statements of schema.sql on recovery_sessions: CREATE TABLE IF NOT EXISTS, and CREATE INDEX IF
-- NOT EXISTS on a column. Those on the other two tables succeed on every version.
pub data SchemaStatement : Type 0 where
  table_of_sessions : SchemaStatement
  index_of_sessions : String → SchemaStatement

abbrev pub schema_sql : List SchemaStatement
schema_sql =
    table_of_sessions
    ∷ index_of_sessions "status"
    ∷ index_of_sessions "campaign_id"
    ∷ index_of_sessions "next_eligible_at"
    ∷ []

-- A table that exists stays as it is, whatever its columns.
abbrev pub create_sessions : Version → File → File
create_sessions without_tables f = record {
  version = up_to_date;
  world = record f.world { db = empty_database };
}
create_sessions without_next_eligible_at f = f
create_sessions up_to_date f = f

unfoldable pub execute : SchemaStatement → Exec File Unit
unfolding has_name
execute table_of_sessions f = (ok tt, create_sessions f.version f)
execute (index_of_sessions column) f =
    if has_name column (columns f.version)
    then (ok tt, f)
    else (err (other (because apply_failure (because "no such column" column))), f)

-- conn.Exec runs the statements in order, up to the first that fails.
unfoldable pub create_tables : List SchemaStatement → Exec File Unit
unfolding execute
create_tables [] = pure tt
create_tables (s ∷ ss) = do execute s; create_tables ss

unfoldable pub apply_schema : Exec File Unit
unfolding create_tables
apply_schema = do on_world (driver_call apply_failure); create_tables schema_sql

abbrev pub has_next_eligible_at : Version → Bool
unfolding has_name
has_next_eligible_at v = has_name "next_eligible_at" (columns v)

unfoldable pub has_column : Exec File Bool
has_column = do
  on_world (driver_call "store: inspect recovery_sessions")
  gets λ f. has_next_eligible_at f.version

abbrev pub change_sessions : (World → RecoverySession → RecoverySession) → File → File
change_sessions change f = record f {
  world = record f.world {
    db = record f.world.db { sessions = map (change f.world) f.world.db.sessions };
  };
}

-- ALTER TABLE … ADD COLUMN fills the column with NULL.
abbrev pub add_column : File → File
add_column f = record (change_sessions (λ w r. record r { next_eligible_at = none }) f) {
  version = up_to_date;
}

abbrev pub is_unfinished : Status → Bool
is_unfinished pending = true
is_unfinished active = true
is_unfinished unclear = true
is_unfinished link_sent = true
is_unfinished promised = true
is_unfinished _ = false

abbrev pub ended_or_created : Option ℕ → ℕ → ℕ
ended_or_created none created = created
ended_or_created (some ended) created = ended

-- The UPDATE of migrate; created_at is never NULL.
abbrev pub backfill_row : World → RecoverySession → RecoverySession
backfill_row w r =
    if is_unfinished r.status
    then record r {
      next_eligible_at = some (ended_or_created r.call_ended_at r.created_at);
      zoned = false;
    }
    else r

unfoldable pub add_and_backfill : Exec File Unit
add_and_backfill = do
  on_world (driver_call "store: add next_eligible_at")
  modify add_column
  on_world (driver_call "store: backfill next_eligible_at")
  modify (change_sessions backfill_row)

unfoldable pub migrate : Exec File Unit
unfolding has_column add_and_backfill
migrate = do has ← has_column; if has then pure tt else add_and_backfill

-- uniqueIndexes.
pub data Column : Type 0 where
  call_session_id razorpay_payment_id razorpay_link_id : Column

abbrev pub column_of : Column → RecoverySession → Option String
column_of call_session_id r = r.call_session_id
column_of razorpay_payment_id r = r.razorpay_payment_id
column_of razorpay_link_id r = r.razorpay_link_id

abbrev pub index_on : Column → UniqueIndexes → Bool
index_on call_session_id i = i.by_call
index_on razorpay_payment_id i = i.by_payment
index_on razorpay_link_id i = i.by_link

abbrev pub with_index : Column → UniqueIndexes → UniqueIndexes
with_index call_session_id i = record i { by_call = true }
with_index razorpay_payment_id i = record i { by_payment = true }
with_index razorpay_link_id i = record i { by_link = true }

-- CREATE UNIQUE INDEX IF NOT EXISTS: rows that share a value refuse a new index.
unfoldable pub build_index : Column → Exec World Unit
unfolding shared
build_index c w =
    if index_on c w.indexes
    then (ok tt, w)
    else if shared (column_of c) w.sessions
    then (err (other not_unique), w)
    else (ok tt, record w { db = record w.db { indexes = with_index c w.indexes } })

unfoldable pub create_index : Column → Exec World Unit
unfolding build_index
create_index c = do driver_call "uniqueness constraint not applied"; build_index c

-- A failure is only logged.
unfoldable pub apply_unique_indexes : List Column → Exec World Unit
unfolding create_index
apply_unique_indexes [] = pure tt
apply_unique_indexes (c ∷ cs) = do attempt (create_index c); apply_unique_indexes cs

abbrev pub unique_indexes : List Column
unique_indexes = call_session_id ∷ razorpay_payment_id ∷ razorpay_link_id ∷ []

unfoldable pub open_file : Exec File Unit
unfolding apply_schema migrate apply_unique_indexes
open_file = do
  on_world (driver_call "store: failed to open database")
  apply_schema
  migrate
  on_world (apply_unique_indexes unique_indexes)
