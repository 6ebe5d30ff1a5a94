-- ===== src/Store/Assign.antt =====
-- AssignNextPending of store/db.go: the transaction that claims the session to call next.
use vasuli.Prelude.{ℕ, ◌+◌, String, ◌&&◌, Option, none, some}
use vasuli.Exec.{Exec, pure, gets, modify, ◌>>=◌, ◌>>◌}
use vasuli.World.{World, assignment, ranked, driver_call, transaction}
use vasuli.Store.Tables.{active, RecoverySession}
use vasuli.Store.Rows.{update, taken_by_other, soonest}
use vasuli.Store.Schedule.{candidates}
use vasuli.Store.Statements.{now_sql, reject_if, set_sessions, get_session_by_id}

-- The SET of AssignNextPending.
unfoldable pub claim : String → ℕ → RecoverySession → RecoverySession
claim call_session_id now r = record r {
  status = active;
  call_session_id = some call_session_id;
  contact_attempts = r.contact_attempts + 1;
  call_started_at = some now;
}

-- The UPDATE and the Commit, for the row that the SELECT found.
unfoldable pub bind_session : String → RecoverySession → Exec World (Option String)
unfolding claim
bind_session call_session_id r = do
  driver_call "store: bind session to call"
  now ← gets now_sql
  reject_if
      (λ w.
        w.indexes.by_call
        && taken_by_other (λ s. s.call_session_id) r.id call_session_id w.sessions)
      "store: bind session to call"
  modify (set_sessions (update r.id (claim call_session_id now)))
  driver_call "store: commit assign tx"
  pure (some r.id)

abbrev pub bind_found : String → Option RecoverySession → Exec World (Option String)
bind_found call_session_id none = pure none
bind_found call_session_id (some r) = bind_session call_session_id r

unfoldable pub claim_next : String → Exec World (Option String)
unfolding bind_session
claim_next call_session_id = do
  driver_call "store: select pending session"
  found ← gets λ w. soonest (ranked assignment w) (candidates w.db (now_sql w))
  bind_found call_session_id found

abbrev pub read_claimed : Option String → Exec World (Option RecoverySession)
read_claimed none = pure none
read_claimed (some id) = get_session_by_id id

unfoldable pub assign_next_pending : String → Exec World (Option RecoverySession)
unfolding claim_next
assign_next_pending call_session_id = do
  driver_call "store: begin assign tx"
  claimed ← transaction (claim_next call_session_id)
  read_claimed claimed
