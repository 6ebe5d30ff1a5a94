-- ===== src/Lifecycle/Assign.antt =====
-- AssignNextPending moves the session that it claims, and no other.
use mathlib.Core.List.{append-nil}
use vasuli.Prelude.{
  [], ℕ, String, ◌≡◌, refl, sym, subst, ◌⊎◌, inl, inr, Bool, true, false, Option, none, some, ◌&&◌,
  arith,
}
use vasuli.Exec.{◌>>=◌}
use vasuli.Exec.Within.{Within, Within-bind}
use vasuli.World.{World, assignment, ranked, driver_call}
use vasuli.Store.Tables.{RecoverySession, Database}
use vasuli.Store.Rows.{find, update, soonest, taken_by_other}
use vasuli.Store.Shared.{Indexed}
use vasuli.Lifecycle.Uniqueness.{indexed-update}
use vasuli.Store.Schedule.{candidates, in_active_campaign, eligible_now, still_contactable}
use vasuli.Store.Statements.{now_sql}
use vasuli.Store.Assign.{
  claim, bind_session, bind_found, claim_next, read_claimed, assign_next_pending,
}
use vasuli.Lifecycle.Moves.{claimed}
use vasuli.Lifecycle.Tables.{
  Keyed, Keyed-IsFound, Keyed-update, Evolves, Evolves-update, All-select, All-soonest,
}
use vasuli.Lifecycle.Worlds.{Moves, Moves-Order, Moves-same}
use vasuli.Lifecycle.Statements.{quiet_rules, driver_call-Within, get_session_by_id-Within}

-- What the assignment query finds is a row of the table, under its own id, that may be called now.
pub record IsNext (db : Database) (now : ℕ) (r : RecoverySession) : Type 0 where
  pub found : find r.id db.sessions ≡ some r
  pub campaign : in_active_campaign db.campaigns r ≡ true
  pub eligible : eligible_now now r ≡ true

both_true : (a b : Bool) → (a && b) ≡ true → (a ≡ true) × (b ≡ true)
both_true a b h = ground arith

pub soonest-IsNext :
    (rank : RecoverySession → ℕ) (db : Database) (now : ℕ) (r : RecoverySession)
    → Keyed db.sessions
    → soonest rank (candidates db now) ≡ some r
    → IsNext db now r
unfolding candidates
soonest-IsNext rank db now r k e =
    let (f, t) =
      All-soonest rank _ _ r
        (All-select (λ s. find s.id db.sessions ≡ some s)
          (λ s. in_active_campaign db.campaigns s && eligible_now now s) db.sessions
          (Keyed-IsFound db.sessions k))
        e in
    record { found = f; campaign = (both_true _ _ t).0; eligible = (both_true _ _ t).1 }

pub eligible_now-still_contactable :
    (now : ℕ) (r : RecoverySession) → eligible_now now r ≡ true → still_contactable r ≡ true
unfolding eligible_now
eligible_now-still_contactable now r h = (both_true _ _ h).0

pub log-bind_session :
    (call : String) (r : RecoverySession) (w : World)
    → (bind_session call r w).1.audit_log ≡ w.audit_log
unfolding bind_session driver_call ◌>>=◌
log-bind_session call r w = ground arith

pub sessions-bind_session :
    (call : String) (r : RecoverySession) (w : World)
    → ((bind_session call r w).1.sessions ≡ w.sessions)
      ⊎ ((bind_session call r w).1.sessions ≡ update r.id (claim call (now_sql w)) w.sessions)
unfolding bind_session driver_call ◌>>=◌
sessions-bind_session call r w = ground arith

indexes-bind_session :
    (call : String) (r : RecoverySession) (w : World)
    → (bind_session call r w).1.indexes ≡ w.indexes
unfolding bind_session driver_call ◌>>=◌
indexes-bind_session call r w = ground arith

-- The UPDATE ran only if the unique index on the call, where it exists, allowed it.
unused-bind_session :
    (call : String) (r : RecoverySession) (w : World)
    → ((bind_session call r w).1.sessions ≡ w.sessions)
      ⊎ ((w.indexes.by_call && taken_by_other (λ s. s.call_session_id) r.id call w.sessions)
          ≡ false)
unfolding bind_session driver_call ◌>>=◌
unused-bind_session call r w = ground arith

claim_row-Indexed :
    (call : String) (now : ℕ) (id : String) (d d' : Database)
    → Keyed d.sessions
    → (d.indexes.by_call && taken_by_other (λ s. s.call_session_id) id call d.sessions) ≡ false
    → d'.sessions ≡ update id (claim call now) d.sessions
    → d'.indexes ≡ d.indexes
    → Indexed d
    → Indexed d'
unfolding claim
claim_row-Indexed call now id d d' k u e i x = record {
  call =
      rw (e, i)
        (indexed-update (λ s. s.call_session_id) d.indexes.by_call id (claim call now) d.sessions k
          (λ on s f. inr (rw on at u)) x.call);
  payment =
      rw (e, i)
        (indexed-update (λ s. s.razorpay_payment_id) d.indexes.by_payment id (claim call now)
          d.sessions k (λ on s f. inl refl) x.payment);
  link =
      rw (e, i)
        (indexed-update (λ s. s.razorpay_link_id) d.indexes.by_link id (claim call now) d.sessions k
          (λ on s f. inl refl) x.link);
}

claim_row-Moves :
    (call : String) (now : ℕ) (r : RecoverySession) (w w' : World)
    → (Keyed w.sessions → (find r.id w.sessions ≡ some r) × (still_contactable r ≡ true))
    → w'.sessions ≡ update r.id (claim call now) w.sessions
    → w'.audit_log ≡ w.audit_log
    → w'.indexes ≡ w.indexes
    → (w.indexes.by_call && taken_by_other (λ s. s.call_session_id) r.id call w.sessions) ≡ false
    → Moves w w'
unfolding claim
claim_row-Moves call now r w w' h e l i u = record {
  keyed = λ k. subst Keyed (sym e) (Keyed-update r.id (claim call now) w.sessions (λ s f. refl) k);
  rows = λ k. subst (Evolves w.sessions) (sym e) (
      Evolves-update r.id (claim call now) w.sessions (λ s f.
        let same : r ≡ s = cc ((h k).0) in
        claimed call now (subst (λ x. still_contactable x ≡ true) same (h k).1) refl));
  log = record { added = []; split = rw (append-nil w.audit_log) l };
  indexed = λ k x. claim_row-Indexed call now r.id w.db w'.db k u e i x;
}

bind_session-Moves :
    (call : String) (r : RecoverySession) (w : World)
    → (Keyed w.sessions → (find r.id w.sessions ≡ some r) × (still_contactable r ≡ true))
    → Moves w (bind_session call r w).1
bind_session-Moves call r w h = elim (sessions-bind_session call r w) [
  | inl e ↦ Moves-same w _ e (log-bind_session call r w) (indexes-bind_session call r w)
  | inr e ↦ elim (unused-bind_session call r w) [
    | inl same ↦ Moves-same w _ same (log-bind_session call r w) (indexes-bind_session call r w)
    | inr u ↦
        claim_row-Moves call (now_sql w) r w _ h e (log-bind_session call r w)
          (indexes-bind_session call r w) u
  ]
]

bind_found-Moves :
    (call : String) (o : Option RecoverySession) (w : World)
    → soonest (ranked assignment w) (candidates w.db (now_sql w)) ≡ o
    → Moves w (bind_found call o w).1
bind_found-Moves call none w e = Moves-Order.same w
bind_found-Moves call (some r) w e = bind_session-Moves call r w λ k.
    let next = soonest-IsNext (ranked assignment w) w.db (now_sql w) r k e in
    (next.found, eligible_now-still_contactable _ r next.eligible)

claim_next-Within : (call : String) → Within Moves (claim_next call)
unfolding claim_next ◌>>=◌
claim_next-Within call =
    Within-bind Moves-Order _ _ (driver_call-Within _)
      λ _. record { at = λ w. bind_found-Moves call _ w refl }

read_claimed-Within : (o : Option String) → Within Moves (read_claimed o)
read_claimed-Within none = search quiet_rules
read_claimed-Within (some id) = get_session_by_id-Within id

pub assign_next_pending-Within : (call : String) → Within Moves (assign_next_pending call)
unfolding assign_next_pending
assign_next_pending-Within call = search (quiet_rules, claim_next-Within, read_claimed-Within)
