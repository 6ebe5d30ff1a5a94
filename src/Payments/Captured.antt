-- ===== src/Payments/Captured.antt =====
-- HandlePaymentCaptured and HandlePaymentLinkPaid: a payment settles its session once.
use vasuli.Prelude.{
  ℕ, String, ◌≡◌, ◌≢◌, refl, subst, ap, ◌∙◌, Bool, true, false, none, some, [], ◌∷◌, ◌++◌, arith,
}
use vasuli.Exec.{Result, ok, ◌>>=◌}
use vasuli.Exec.Inversion.{bind-Between}
use vasuli.World.{World, driver_call}
use vasuli.Store.Tables.{recovered, RecoverySession, Payload, AuditRow}
use vasuli.Store.Rows.{find, update}
use vasuli.Store.Statements.{now_sql, insert_audit_log}
use vasuli.Store.Outcome.{is_open, settle_row, settle_open, mark_recovered}
use vasuli.Campaign.Outcome.{event}
use vasuli.Campaign.Payments.{log_captured, confirm_recovery}
use vasuli.CallEnd.Recorded.{Appended, insert_audit_log-Appended}

abbrev captured_row : String → ℕ → Payload → AuditRow
captured_row id now payload = record {
  session_id = id;
  event = event "payment_captured" payload;
  created_at = now;
}

-- The row of a session whose payment came in: recovered at this moment, and off the call schedule.
abbrev pub paid_row : ℕ → RecoverySession → RecoverySession
paid_row now r = record r { status = recovered; recovered_at = some now; next_eligible_at = none }

-- A payment that settled session `s`.
pub record Captured (payload : Payload) (s : RecoverySession) (w w' : World) : Type 0 where
  pub open_before : is_open (find s.id w.sessions) ≡ true
  pub table : w'.sessions ≡ update s.id (settle_row (now_sql w)) w.sessions
  pub written : w'.sessions ≡ update s.id (paid_row (now_sql w)) w.sessions
  pub log : w'.audit_log ≡ w.audit_log ++ captured_row s.id (now_sql w) payload ∷ []

record Marked (id : String) (w w' : World) : Type 0 where
  open_before : is_open (find id w.sessions) ≡ true
  table : w'.sessions ≡ update id (settle_row (now_sql w)) w.sessions
  same_log : w'.audit_log ≡ w.audit_log
  same_clock : w'.clock ≡ w.clock

mark_recovered-Marked :
    (id : String) (w : World)
    → (mark_recovered id w).0 ≡ ok true
    → Marked id w (mark_recovered id w).1
unfolding mark_recovered settle_open driver_call ◌>>=◌
mark_recovered-Marked id w h = ground arith

abbrev state_of : {A : Type 0} → Result A × World → World
state_of r = r.1

abbrev result_of : {A : Type 0} → Result A × World → Result A
result_of r = r.0

log_captured-Appended :
    (id : String) (payload : Payload) (changed : Bool) (w : World)
    → (log_captured id payload changed w).0 ≡ ok true
    → (changed ≡ true)
      × Appended id (event "payment_captured" payload ∷ []) w (log_captured id payload changed w).1
unfolding log_captured
log_captured-Appended id payload false w h = absurd (cc)
log_captured-Appended id payload true w h =
    let m = bind-Between (insert_audit_log id (event "payment_captured" payload)) _ w true h in
    (
      refl,
      rw m.final (
          subst (Appended id (event "payment_captured" payload ∷ []) w) (ap state_of m.first) (
            insert_audit_log-Appended id (event "payment_captured" payload) w
              (ap result_of m.first))),
    )

pub confirm_recovery-Captured :
    (payload : Payload) (s : RecoverySession) (w : World)
    → (confirm_recovery payload (some s) w).0 ≡ ok true
    → Captured payload s w (confirm_recovery payload (some s) w).1
unfolding confirm_recovery settle_row
confirm_recovery-Captured payload s w h =
    let m = bind-Between (mark_recovered s.id) (log_captured s.id payload) w true h in
    let (changed, wrote) = log_captured-Appended s.id payload m.value m.state m.rest in
    let marked =
      subst (Marked s.id w) (ap state_of m.first)
        (mark_recovered-Marked s.id w (ap result_of m.first ∙ ap ok changed)) in
    rw m.final (record {
      open_before = marked.open_before;
      table = wrote.same_rows ∙ marked.table;
      written = wrote.same_rows ∙ marked.table;
      log = cc (wrote.log, marked.same_log, marked.same_clock);
    })

-- A session that is settled is not settled again, and nothing is logged.
pub confirm_recovery_settled :
    (payload : Payload) (s : RecoverySession) (w : World)
    → is_open (find s.id w.sessions) ≡ false
    → ((confirm_recovery payload (some s) w).0 ≢ ok true)
      × ((confirm_recovery payload (some s) w).1.db ≡ w.db)
unfolding confirm_recovery log_captured mark_recovered settle_open driver_call ◌>>=◌
confirm_recovery_settled payload s w c = ground arith
