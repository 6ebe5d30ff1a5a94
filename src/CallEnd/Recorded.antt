-- ===== src/CallEnd/Recorded.antt =====
-- What RecordOutcome has written when it reports success.
use mathlib.Core.List.{append-nil, append_assoc}
use vasuli.Prelude.{
  ℕ, String, ◌≡◌, refl, subst, sym, ap, ◌∙◌, inl, inr, Bool, true, Bool-cases, Option, none, some,
  List, [], ◌∷◌, ◌++◌, map, arith, str_eq, if◌then◌else◌,
}
use vasuli.Exec.{Result, ok, pure, ◌>>=◌}
use vasuli.Exec.Inversion.{bind-Between}
use vasuli.World.{World, driver_call, transaction}
use vasuli.World.Inversion.{call-AfterCall, transaction-ok}
use vasuli.Store.Tables.{Status, RecoverySession, AuditEvent, AuditRow, Database}
use vasuli.Store.Rows.{find, update}
use vasuli.Store.Statements.{now_sql, reject_if, set_sessions, insert_audit_log}
use vasuli.Store.Outcome.{
  OutcomeWrite, one_of, apply_outcome, insert_events, write_outcome, check_status, outcome_body,
  record_outcome, store_outcome, link_conflict,
}

-- The audit rows of a list of events, written at one moment.
abbrev pub rows_of : String → ℕ → List AuditEvent → List AuditRow
rows_of id now es = map (λ e. record { session_id = id; event = e; created_at = now }) es

-- The row of a session whose outcome is recorded: the new status, the end of the call, the next call
-- that the outcome asks for, and the promise date and the link if the outcome has them.
abbrev pub ended_row : OutcomeWrite → ℕ → RecoverySession → RecoverySession
ended_row o now r = record r {
  status = o.status;
  call_ended_at = some now;
  promise_date = if str_eq o.promise_date "" then r.promise_date else some o.promise_date;
  razorpay_link_id =
      if str_eq o.razorpay_link_id "" then r.razorpay_link_id else some o.razorpay_link_id;
  next_eligible_at = o.next_eligible_at;
  zoned = true;
}

-- What a recorded outcome has done.
pub record Recorded (o : OutcomeWrite) (allowed : List Status) (w w' : World) : Type 0 where
  pub row : RecoverySession
  pub found : find o.session_id w.sessions ≡ some row
  pub allowed_from : one_of allowed row.status ≡ true
  pub table : w'.sessions ≡ update o.session_id (apply_outcome o (now_sql w)) w.sessions
  pub written : w'.sessions ≡ update o.session_id (ended_row o (now_sql w)) w.sessions
  pub log : w'.audit_log ≡ w.audit_log ++ rows_of o.session_id (now_sql w) o.events

pub record Appended (id : String) (es : List AuditEvent) (w w' : World) : Type 0 where
  pub same_rows : w'.sessions ≡ w.sessions
  pub same_clock : w'.clock ≡ w.clock
  pub log : w'.audit_log ≡ w.audit_log ++ rows_of id (now_sql w) es

pub insert_audit_log-Appended :
    (id : String) (e : AuditEvent) (w : World)
    → (insert_audit_log id e w).0 ≡ ok tt
    → Appended id (e ∷ []) w (insert_audit_log id e w).1
unfolding insert_audit_log driver_call ◌>>=◌
insert_audit_log-Appended id e w h = ground arith

Appended-trans :
    (id : String) (e : AuditEvent) (es : List AuditEvent) (u v w : World)
    → Appended id (e ∷ []) u v
    → Appended id es v w
    → Appended id (e ∷ es) u w
Appended-trans id e es u v w a b = record {
  same_rows = b.same_rows ∙ a.same_rows;
  same_clock = b.same_clock ∙ a.same_clock;
  log =
      b.log
      ∙ simp (a.log, a.same_clock)
          (append_assoc u.audit_log (rows_of id (now_sql u) (e ∷ [])) (rows_of id (now_sql u) es));
}

insert_events-Appended :
    (id : String) (es : List AuditEvent) (w : World)
    → (insert_events id es w).0 ≡ ok tt
    → Appended id es w (insert_events id es w).1
unfolding insert_events
insert_events-Appended id [] w h = record {
  same_rows = refl;
  same_clock = refl;
  log = sym (append-nil w.audit_log);
}
insert_events-Appended id (e ∷ es) w h =
    let m = bind-Between (insert_audit_log id e) (λ _. insert_events id es) w tt h in
    let wrote =
      subst (Appended id (e ∷ []) w) (ap (λ (x : Result Unit × World). x.1) m.first)
        (insert_audit_log-Appended id e w (ap (λ (x : Result Unit × World). x.0) m.first)) in
    rw m.final
      (Appended-trans id e es w m.state _ wrote (insert_events-Appended id es m.state m.rest))

driver_call-same :
    (what : String) (w : World)
    → ((driver_call what w).1.db ≡ w.db) × ((driver_call what w).1.clock ≡ w.clock)
unfolding driver_call
driver_call-same what w = ground arith

committed-Appended :
    (id what : String) (es : List AuditEvent) (w : World)
    → ((insert_events id es >>= λ _. driver_call what >>= λ _. pure true) w).0 ≡ ok true
    → Appended id es w ((insert_events id es >>= λ _. driver_call what >>= λ _. pure true) w).1
committed-Appended id what es w h =
    let m =
      bind-Between (insert_events id es) (λ _. driver_call what >>= λ _. pure true) w true h in
    let n = bind-Between (driver_call what) (λ _. pure true) m.state true m.rest in
    let wrote =
      subst (Appended id es w) (ap (λ (x : Result Unit × World). x.1) m.first)
        (insert_events-Appended id es w (ap (λ (x : Result Unit × World). x.0) m.first)) in
    let same = driver_call-same what m.state in
    let left : (driver_call what m.state).1 ≡ n.state =
      ap (λ (x : Result Unit × World). x.1) n.first in
    rw (m.final, n.final, ← left)
      (record {
        same_rows = ap (λ (b : Database). b.sessions) same.0 ∙ wrote.same_rows;
        same_clock = same.1 ∙ wrote.same_clock;
        log = ap (λ (b : Database). b.audit_log) same.0 ∙ wrote.log;
      })

reject_if-passed :
    (test : World → Bool) (what : String) (w : World) (u : Unit {0}) (t : World)
    → reject_if test what w ≡ (ok u, t)
    → t ≡ w
reject_if-passed test what w u t h = elim (Bool-cases (test w)) [
  | inl e ↦ absurd (cc (rw e at h))
  | inr e ↦ cc (rw e at h)
]

store_outcome-Recorded :
    (o : OutcomeWrite) (allowed : List Status) (r : RecoverySession) (w : World)
    → find o.session_id w.sessions ≡ some r
    → one_of allowed r.status ≡ true
    → (store_outcome o w).0 ≡ ok true
    → Recorded o allowed w (store_outcome o w).1
unfolding store_outcome ◌>>=◌ apply_outcome
store_outcome-Recorded o allowed r w f t h =
    let end =
      committed-Appended o.session_id "store: commit outcome" o.events
        (set_sessions (update o.session_id (apply_outcome o (now_sql w))) w) h in
    record {
      row = r;
      found = f;
      allowed_from = t;
      table = end.same_rows;
      written = end.same_rows;
      log = end.log;
    }

write_outcome-Recorded :
    (o : OutcomeWrite) (allowed : List Status) (r : RecoverySession) (w : World)
    → find o.session_id w.sessions ≡ some r
    → one_of allowed r.status ≡ true
    → (write_outcome o w).0 ≡ ok true
    → Recorded o allowed w (write_outcome o w).1
unfolding write_outcome
write_outcome-Recorded o allowed r w f t h =
    let a = call-AfterCall _ _ true w h in
    let u : World = record w { faults = a.faults } in
    let run : write_outcome o w
        ≡ (reject_if (link_conflict o) "store: apply outcome" >>= λ _. store_outcome o) u =
      a.step in
    let m = bind-Between _ _ u true (rw run at h) in
    let stay =
      reject_if-passed (link_conflict o) "store: apply outcome" u m.value m.state m.first in
    let done = store_outcome-Recorded o allowed r u f t (rw stay at m.rest) in
    rw (run, m.final, stay)
      (record {
        row = r;
        found = f;
        allowed_from = t;
        table = done.table;
        written = done.written;
        log = done.log;
      })

check_status-Recorded :
    (o : OutcomeWrite) (allowed : List Status) (c : Option RecoverySession) (w : World)
    → find o.session_id w.sessions ≡ c
    → (check_status o allowed c w).0 ≡ ok true
    → Recorded o allowed w (check_status o allowed c w).1
unfolding check_status
check_status-Recorded o allowed none w e h = absurd (cc)
check_status-Recorded o allowed (some r) w e h = elim (Bool-cases (one_of allowed r.status)) [
  | inl t ↦ rw t (write_outcome-Recorded o allowed r w e t (rw t at h))
  | inr f ↦ absurd (cc (rw f at h))
]

Recorded-faults :
    (o : OutcomeWrite) (allowed : List Status) (w w' : World) (fs : List (Option String))
    → Recorded o allowed (record w { faults = fs }) w'
    → Recorded o allowed w w'
Recorded-faults o allowed w w' fs d = record {
  row = d.row;
  found = d.found;
  allowed_from = d.allowed_from;
  table = d.table;
  written = d.written;
  log = d.log;
}

outcome_body-Recorded :
    (o : OutcomeWrite) (allowed : List Status) (w : World)
    → (outcome_body o allowed w).0 ≡ ok true
    → Recorded o allowed w (outcome_body o allowed w).1
unfolding outcome_body ◌>>=◌
outcome_body-Recorded o allowed w h =
    let a = call-AfterCall _ _ true w h in
    let t : World = record w { faults = a.faults } in
    let run : outcome_body o allowed w ≡ check_status o allowed (find o.session_id w.sessions) t =
      a.step in
    rw run (
      Recorded-faults o allowed w _ a.faults
        (check_status-Recorded o allowed _ t refl (rw run at h)))

-- RecordOutcome that reports success has found the session in one of the allowed statuses, has
-- changed exactly its row, to the status, end time, promise date, link and next call that the
-- outcome asks for, and has put exactly the outcome's events at the end of the audit log, in order.
pub record_outcome-Recorded :
    (o : OutcomeWrite) (allowed : List Status) (w : World)
    → (record_outcome o allowed w).0 ≡ ok true
    → Recorded o allowed w (record_outcome o allowed w).1
unfolding record_outcome
record_outcome-Recorded o allowed w h =
    let a = call-AfterCall _ _ true w h in
    let t : World = record w { faults = a.faults } in
    let run : record_outcome o allowed w ≡ transaction (outcome_body o allowed) t = a.step in
    let body = transaction-ok (outcome_body o allowed) t true (rw run at h) in
    let fst = ap (λ (x : Result Bool × World). x.0) body in
    let snd = ap (λ (x : Result Bool × World). x.1) body in
    rw run (
      Recorded-faults o allowed w _ a.faults
        (subst (Recorded o allowed t) snd (outcome_body-Recorded o allowed t fst)))
