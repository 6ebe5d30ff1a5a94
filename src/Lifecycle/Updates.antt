-- ===== src/Lifecycle/Updates.antt =====
-- UPDATEs by id: MarkRecovered and SetNextEligibleAt move the row of their session, and no other.
use vasuli.Prelude.{
  ℕ, String, ◌≡◌, refl, inl, Bool, true, false, Option, none, some, arith, if◌then◌else◌,
}
use vasuli.Exec.{◌>>=◌}
use vasuli.Exec.Within.{Within, Within-bind}
use vasuli.World.{World}
use vasuli.Store.Tables.{RecoverySession, Database}
use vasuli.Store.Rows.{find, update}
use vasuli.Store.Statements.{now_sql, set_sessions}
use vasuli.Store.Outcome.{
  settle_row, is_recovered, is_open, mark_recovered, set_next_eligible_at, settle_open,
}
use vasuli.Lifecycle.Moves.{RowMove, paid, rescheduled}
use vasuli.Lifecycle.Uniqueness.{Fits, indexed-update}
use vasuli.Lifecycle.Tables.{Keyed-update, Evolves-update}
use vasuli.Lifecycle.Worlds.{Moves, Moves-Order, Extends-refl}
use vasuli.Lifecycle.Statements.{quiet_rules, driver_call-Within}

-- The values that an UPDATE sets are not taken, where their unique index exists.
pub record Spares (id : String) (change : RecoverySession → RecoverySession) (db : Database)
    : Type 0 where
  pub call : db.indexes.by_call ≡ true → Fits (λ s. s.call_session_id) id change db.sessions
  pub payment :
      db.indexes.by_payment ≡ true → Fits (λ s. s.razorpay_payment_id) id change db.sessions
  pub link : db.indexes.by_link ≡ true → Fits (λ s. s.razorpay_link_id) id change db.sessions

-- An UPDATE by id whose change is a move of the row that it hits.
pub update-Moves :
    (id : String) (change : RecoverySession → RecoverySession) (w : World)
    → ((r : RecoverySession) → (change r).id ≡ r.id)
    → ((r : RecoverySession) → find id w.sessions ≡ some r → RowMove r (change r))
    → Spares id change w.db
    → Moves w (set_sessions (update id change) w)
update-Moves id change w same h u = record {
  keyed = λ k. Keyed-update id change w.sessions (λ r _. same r) k;
  rows = λ k. Evolves-update id change w.sessions h;
  log = Extends-refl w.audit_log;
  indexed = λ k x. record {
    call =
        indexed-update (λ s. s.call_session_id) w.indexes.by_call id change w.sessions k u.call
          x.call;
    payment =
        indexed-update (λ s. s.razorpay_payment_id) w.indexes.by_payment id change w.sessions k
          u.payment x.payment;
    link =
        indexed-update (λ s. s.razorpay_link_id) w.indexes.by_link id change w.sessions k u.link
          x.link;
  };
}

reschedule-Moves :
    (id : String) (at : ℕ) (w : World)
    → Moves w
        (set_sessions (update id (λ r. record r { next_eligible_at = some at; zoned = true })) w)
reschedule-Moves id at w =
    update-Moves id _ w (λ r. refl) (λ r f. rescheduled at refl)
      (record {
        call = λ on r f. inl refl;
        payment = λ on r f. inl refl;
        link = λ on r f. inl refl;
      })

pub set_next_eligible_at-Within : (id : String) (at : ℕ) → Within Moves (set_next_eligible_at id at)
unfolding set_next_eligible_at
set_next_eligible_at-Within id at =
    Within-bind Moves-Order _ _ (driver_call-Within _) (λ _. record { at = reschedule-Moves id at })

is_open-recovered :
    (o : Option RecoverySession) (r : RecoverySession)
    → is_open o ≡ true
    → o ≡ some r
    → is_recovered r.status ≡ false
is_open-recovered none r h e = cc
is_open-recovered (some s) r h e = ground arith

settle-Moves :
    (id : String) (now : ℕ) (changed : Bool) (w : World)
    → is_open (find id w.sessions) ≡ changed
    → Moves w (set_sessions (λ rs. if changed then update id (settle_row now) rs else rs) w)
unfolding settle_row
settle-Moves id now true w h =
    update-Moves id (settle_row now) w (λ r. refl)
      (λ r f. paid now (is_open-recovered (find id w.sessions) r h f) refl)
      (record {
        call = λ on r f. inl refl;
        payment = λ on r f. inl refl;
        link = λ on r f. inl refl;
      })
settle-Moves id now false w h = Moves-Order.same w

settle_open-Within : (id : String) → Within Moves (settle_open id)
unfolding settle_open ◌>>=◌
settle_open-Within id = record { at = λ w. settle-Moves id (now_sql w) _ w refl }

pub mark_recovered-Within : (id : String) → Within Moves (mark_recovered id)
unfolding mark_recovered
mark_recovered-Within id = search (quiet_rules, settle_open-Within)
