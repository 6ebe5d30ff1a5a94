-- ===== src/Lifecycle/Outcome.antt =====
-- RecordOutcome moves the row of its session, and no other.
use mathlib.Core.Logic.{if_neg}
use vasuli.Prelude.{
  ℕ, String, ◌≡◌, refl, subst, ◌⊎◌, ◌&&◌, str_eq, inl, inr, Bool, true, false, Bool-cases, Option,
  none, some, List, [], ◌∷◌, All, arith,
}
use vasuli.Exec.{Exec, gets, modify, ◌>>=◌, ◌>>◌}
use vasuli.Exec.Within.{Within, Within-bind}
use vasuli.World.{World, driver_call}
use vasuli.Store.Tables.{Status, RecoverySession, Database, AuditEvent}
use vasuli.Store.Rows.{find, update}
use vasuli.Store.Statements.{reject_if, set_sessions, some_taken, null_if_empty}
use vasuli.Store.Outcome.{
  OutcomeWrite, one_of, apply_outcome, insert_events, write_outcome, check_status, outcome_body,
  record_outcome, Status-discrete, coalesce, link_conflict, store_outcome,
}
use vasuli.Lifecycle.Moves.{ended, is_recordable, is_outcome}
use vasuli.Lifecycle.Worlds.{
  Moves, Moves-Order, IsQuiet, MovesFrom, MovesFrom-quiet, MovesFrom-bind,
}
use vasuli.Lifecycle.Updates.{update-Moves}
use vasuli.Lifecycle.Statements.{quiet_rules, driver_call-Within, insert_audit_log-Within}

pub driver_call-IsQuiet : (what : String) → IsQuiet (driver_call what)
unfolding driver_call
driver_call-IsQuiet what = record { at = λ w. ground arith }

reject_if-IsQuiet : (test : World → Bool) (what : String) → IsQuiet (reject_if test what)
reject_if-IsQuiet test what = record {
  at = λ w. elim (Bool-cases (test w)) [ inl t ↦ rw t | inr f ↦ rw f ];
}

gets-IsQuiet : {A : Type 0} (f : World → A) → IsQuiet (gets f)
gets-IsQuiet f = record { at = λ w. refl }

insert_events-Within : (id : String) (es : List AuditEvent) → Within Moves (insert_events id es)
unfolding insert_events
insert_events-Within id [] = search quiet_rules
insert_events-Within id (e ∷ es) =
    Within-bind Moves-Order _ _ (insert_audit_log-Within id e) (λ _. insert_events-Within id es)

-- Where the index on the link exists, no other session holds the link of the write.
abbrev Unlinked : OutcomeWrite → Database → Type 0
Unlinked o db =
    (db.indexes.by_link
      && some_taken (λ s. s.razorpay_link_id) o.session_id (null_if_empty o.razorpay_link_id)
          db.sessions)
    ≡ false

-- The link that an outcome stores is its own or the one that the row had.
coalesce-link :
    (o : OutcomeWrite) (old : Option String) (rs : List RecoverySession)
    → some_taken (λ s. s.razorpay_link_id) o.session_id (null_if_empty o.razorpay_link_id) rs
      ≡ false
    → (coalesce o.razorpay_link_id old ≡ old)
      ⊎ (some_taken (λ s. s.razorpay_link_id) o.session_id (coalesce o.razorpay_link_id old) rs
          ≡ false)
coalesce-link o old rs h = elim (Bool-cases (str_eq o.razorpay_link_id "")) [
  | inl t ↦ rw t (inl refl)
  | inr f ↦ rw f (inr (rw f at h))
]

abbrev Recordable : String → Database → Type 0
Recordable id db =
    (r : RecoverySession) → find id db.sessions ≡ some r → is_recordable r.status ≡ true

apply-MovesFrom :
    (o : OutcomeWrite) (now : ℕ)
    → is_outcome o.status ≡ true
    → MovesFrom
        (λ db. Recordable o.session_id db × Unlinked o db)
        (modify (set_sessions (update o.session_id (apply_outcome o now))))
unfolding apply_outcome
apply-MovesFrom o now s = record {
  at = λ w (h, u).
      update-Moves o.session_id (apply_outcome o now) w (λ r. refl)
        (λ r f. ended o now (h r f) s refl)
        (record {
          call = λ on r f. inl refl;
          payment = λ on r f. inl refl;
          link = λ on r f. coalesce-link o r.razorpay_link_id w.sessions (rw on at u);
        });
}

-- The test of the index on the link has been made when the rest runs.
reject-MovesFrom :
    (o : OutcomeWrite) (what : String) (m : Exec World Bool)
    → MovesFrom (λ db. Recordable o.session_id db × Unlinked o db) m
    → MovesFrom (Recordable o.session_id) (reject_if (link_conflict o) what >> m)
unfolding link_conflict ◌>>=◌
reject-MovesFrom o what m h = record {
  at = λ w r. elim (Bool-cases (link_conflict o w)) [
    | inl t ↦ rw t (Moves-Order.same w)
    | inr f ↦ rw f (h.at w (r, f))
  ];
}

ruleset from_rules =
    (MovesFrom-quiet, MovesFrom-bind, driver_call-IsQuiet, reject_if-IsQuiet, gets-IsQuiet)

store_outcome-MovesFrom :
    (o : OutcomeWrite)
    → is_outcome o.status ≡ true
    → MovesFrom (λ db. Recordable o.session_id db × Unlinked o db) (store_outcome o)
unfolding store_outcome
store_outcome-MovesFrom o s =
    search (from_rules, apply-MovesFrom, insert_events-Within, quiet_rules) depth 12

write_outcome-MovesFrom :
    (o : OutcomeWrite)
    → is_outcome o.status ≡ true
    → MovesFrom (Recordable o.session_id) (write_outcome o)
unfolding write_outcome
write_outcome-MovesFrom o s =
    search (from_rules, reject-MovesFrom, store_outcome-MovesFrom) depth 12

-- Every status on the list is one from which an outcome may be recorded.
abbrev pub AllRecordable : List Status → Type 0
AllRecordable = All (λ s. is_recordable s ≡ true)

pub one_of-recordable :
    (allowed : List Status) (s : Status)
    → AllRecordable allowed
    → one_of allowed s ≡ true
    → is_recordable s ≡ true
one_of-recordable [] s a h = cc
one_of-recordable (t ∷ ts) s a h = elim (Status-discrete t s) [
  | yes e ↦ subst (λ x. is_recordable x ≡ true) e a.0
  | no n ↦ one_of-recordable ts s a.1 (rw (if_neg _ n) at h)
]

check_status-Moves :
    (o : OutcomeWrite) (allowed : List Status) (c : Option RecoverySession) (w : World)
    → is_outcome o.status ≡ true
    → AllRecordable allowed
    → find o.session_id w.sessions ≡ c
    → Moves w (check_status o allowed c w).1
unfolding check_status
check_status-Moves o allowed none w s a e = Moves-Order.same w
check_status-Moves o allowed (some r) w s a e = elim (Bool-cases (one_of allowed r.status)) [
  | inl t ↦ rw t (
      (write_outcome-MovesFrom o s).at w (λ r' f.
        let same : r ≡ r' = cc in
        subst (λ (x : RecoverySession). is_recordable x.status ≡ true) same
          (one_of-recordable allowed r.status a t)))
  | inr f ↦ rw f (Moves-Order.same w)
]

outcome_body-Within :
    (o : OutcomeWrite) (allowed : List Status)
    → is_outcome o.status ≡ true
    → AllRecordable allowed
    → Within Moves (outcome_body o allowed)
unfolding outcome_body ◌>>=◌
outcome_body-Within o allowed s a =
    Within-bind Moves-Order _ _ (driver_call-Within _)
      λ _. record { at = λ w. check_status-Moves o allowed _ w s a refl }

pub record_outcome-Within :
    (o : OutcomeWrite) (allowed : List Status)
    → is_outcome o.status ≡ true
    → AllRecordable allowed
    → Within Moves (record_outcome o allowed)
unfolding record_outcome
record_outcome-Within o allowed s a = search (quiet_rules, outcome_body-Within)
