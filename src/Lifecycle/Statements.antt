-- ===== src/Lifecycle/Statements.antt =====
-- Each method of the store moves the tables as the life cycle allows.
use vasuli.Prelude.{
  ℕ, String, ◌≡◌, refl, inl, inr, false, none, Bool-cases, Option, [], ◌∷◌, ◌++◌, arith,
}
use vasuli.Exec.{◌>>=◌}
use vasuli.Exec.Within.{Within, Within-pure, Within-raise, Within-gets, Within-bind, Within-if}
use vasuli.World.{World, driver_call, random_id}
use vasuli.Store.Tables.{RecoverySession, AuditEvent, Account}
use vasuli.Store.Rows.{find}
use vasuli.Store.Statements.{
  insert_campaign, insert_recovery_session, get_campaign, get_session_by_id, get_session_by,
  get_most_recent_active_campaign, increment_campaign_total, insert_audit_log, append_event,
  session_conflict, set_sessions, add_session, new_session,
}
use vasuli.Lifecycle.Moves.{IsFresh}
use vasuli.Lifecycle.Tables.{Keyed-append, Evolves-append, Evolves-refl}
use vasuli.Lifecycle.Uniqueness.{both_false, indexed-append, untaken}
use vasuli.Lifecycle.Worlds.{Moves, Extends-refl, Moves-Order, Moves-same, Within-transaction}

pub driver_call-Within : (what : String) → Within Moves (driver_call what)
unfolding driver_call
driver_call-Within what = record {
  at = λ w. Moves-same w _ (ground arith) (ground arith) (ground arith);
}

pub random_id-Within :
    (prefix : String) (wrap : String → String) → Within Moves (random_id prefix wrap)
unfolding random_id
random_id-Within prefix wrap = record {
  at = λ w. Moves-same w _ (ground arith) (ground arith) (ground arith);
}

pub ruleset quiet_rules = (
  Within-pure, Within-raise, Within-gets, Within-bind, Within-if, Moves-Order, Within-transaction,
  driver_call-Within, random_id-Within,
)

pub insert_campaign-Within :
    (id name : String) (total : ℕ) → Within Moves (insert_campaign id name total)
unfolding insert_campaign driver_call ◌>>=◌
insert_campaign-Within id name total = record {
  at = λ w. Moves-same w _ (ground arith) (ground arith) (ground arith);
}

pub get_campaign-Within : (id : String) → Within Moves (get_campaign id)
unfolding get_campaign
get_campaign-Within id = search quiet_rules

pub get_session_by_id-Within : (id : String) → Within Moves (get_session_by_id id)
unfolding get_session_by_id
get_session_by_id-Within id = search quiet_rules

pub get_session_by-Within :
    (column : RecoverySession → Option String) (value : String)
    → Within Moves (get_session_by column value)
unfolding get_session_by
get_session_by-Within column value = search quiet_rules

pub get_most_recent_active_campaign-Within : Within Moves get_most_recent_active_campaign
unfolding get_most_recent_active_campaign
get_most_recent_active_campaign-Within = search quiet_rules

pub increment_campaign_total-Within : (id : String) → Within Moves (increment_campaign_total id)
unfolding increment_campaign_total driver_call ◌>>=◌
increment_campaign_total-Within id = record {
  at = λ w. Moves-same w _ (ground arith) (ground arith) (ground arith);
}

append_event-Moves : (id : String) (e : AuditEvent) (w : World) → Moves w (append_event id e w)
append_event-Moves id e w = record {
  keyed = λ k. k;
  rows = λ k. Evolves-refl w.sessions;
  log = record { added = _; split = refl };
  indexed = λ k x. record { call = x.call; payment = x.payment; link = x.link };
}

pub insert_audit_log-Within : (id : String) (e : AuditEvent) → Within Moves (insert_audit_log id e)
unfolding insert_audit_log
insert_audit_log-Within id e =
    Within-bind Moves-Order _ _ (driver_call-Within _)
      (λ _. record { at = append_event-Moves id e })

-- The INSERT, at the state where its conflict test passed.
append_session-Moves :
    (r : RecoverySession) (w : World)
    → IsFresh r
    → session_conflict r w ≡ false
    → Moves w (set_sessions (λ rs. rs ++ r ∷ []) w)
unfolding session_conflict
append_session-Moves r w f c = record {
  keyed = Keyed-append w.sessions r (ground arith);
  rows = λ k. Evolves-append w.sessions r f;
  log = Extends-refl w.audit_log;
  indexed = λ k x.
      let absent : find r.id w.sessions ≡ none = ground arith in
      record {
        call =
            indexed-append (λ s. s.call_session_id) w.indexes.by_call r w.sessions absent
              (untaken (λ s. s.call_session_id) w.indexes.by_call r.id r.call_session_id w.sessions
                f.unbound)
              x.call;
        payment =
            indexed-append (λ s. s.razorpay_payment_id) w.indexes.by_payment r w.sessions absent
              (both_false _ _ c).1 x.payment;
        link =
            indexed-append (λ s. s.razorpay_link_id) w.indexes.by_link r w.sessions absent
              (untaken (λ s. s.razorpay_link_id) w.indexes.by_link r.id r.razorpay_link_id
                w.sessions f.unlinked)
              x.link;
      };
}

new_session-IsFresh :
    (id campaign_id prompt : String) (acc : Account) (now : ℕ)
    → IsFresh (new_session id campaign_id prompt acc now)
new_session-IsFresh id campaign_id prompt acc now = record {
  is_pending = refl;
  uncalled = refl;
  three_calls = refl;
  unbound = refl;
  unlinked = refl;
}

add_session-Within : (r : RecoverySession) → IsFresh r → Within Moves (add_session r)
unfolding add_session ◌>>=◌
add_session-Within r f = record {
  at = λ w. elim (Bool-cases (session_conflict r w)) [
    | inl t ↦ rw t (Moves-Order.same w)
    | inr c ↦ rw c (append_session-Moves r w f c)
  ];
}

pub insert_recovery_session-Within :
    (id campaign_id prompt : String) (acc : Account)
    → Within Moves (insert_recovery_session id campaign_id prompt acc)
unfolding insert_recovery_session
insert_recovery_session-Within id campaign_id prompt acc =
    search (quiet_rules, add_session-Within, new_session-IsFresh)
