-- ===== src/Payments/Queued.antt =====
-- HandlePaymentFailed: what a payment that is queued has written.
use vasuli.Prelude.{
  ℕ, if◌then◌else◌, String, ◌≡◌, ◌≢◌, refl, subst, sym, ap, ◌∙◌, inl, inr, Bool, true, false,
  Bool-cases, Option, none, some, List, [], ◌∷◌, ◌++◌, arith, str_eq, eq_iff,
}
use vasuli.Exec.{Result, ok, Exec, ◌>>=◌}
use vasuli.Exec.Inversion.{bind-Between}
use vasuli.Exec.Within.{Order, Within, Within-bind, Within-pure, Within-raise}
use vasuli.World.{World, driver_call, random_id}
use vasuli.Platform.{Platform}
use vasuli.Store.Tables.{pending, RecoverySession, Campaign, Account, AuditEvent, Database}
use vasuli.Store.Rows.{find_by, equals}
use vasuli.Store.Statements.{
  now_sql, new_session, add_session, insert_recovery_session, insert_audit_log,
  increment_campaign_total, get_session_by, get_session_by_id, get_most_recent_active_campaign,
  newest_running,
}
use vasuli.Razorpay.Webhook.{PaymentEntity, customer_name, due_date}
use vasuli.Campaign.Prompt.{render_system_prompt}
use vasuli.Campaign.Sessions.{new_id}
use vasuli.Campaign.Payments.{
  failed_account, queue_on, find_existing, queue_unless, queue_payment, handle_payment_failed,
  created_session,
}
use vasuli.Payments.Newest.{IsNewest, newest_running-IsNewest}
use vasuli.Payments.Redelivery.{handle_payment_failed-Known}

-- The sessions and the clock stay as they are.
abbrev Still : World → World → Type 0
Still w w' = (w'.sessions ≡ w.sessions) × (w'.clock ≡ w.clock)

Still-Order : Order Still
Still-Order = record { same = λ s. (refl, refl); chain = λ s t u a b. (b.0 ∙ a.0, b.1 ∙ a.1) }

new_id-Within : (prefix : String) → Within Still (new_id prefix)
unfolding random_id
new_id-Within prefix = record { at = λ w. ground arith }

increment_campaign_total-Within : (id : String) → Within Still (increment_campaign_total id)
unfolding increment_campaign_total driver_call ◌>>=◌
increment_campaign_total-Within id = record { at = λ w. ground arith }

insert_audit_log-Within : (id : String) (e : AuditEvent) → Within Still (insert_audit_log id e)
unfolding insert_audit_log driver_call ◌>>=◌
insert_audit_log-Within id e = record { at = λ w. ground arith }

get_session_by_id-Within : (id : String) → Within Still (get_session_by_id id)
unfolding get_session_by_id driver_call ◌>>=◌
get_session_by_id-Within id = record { at = λ w. ground arith }

created_session-Within : (o : Option RecoverySession) → Within Still (created_session o)
unfolding created_session
created_session-Within none = Within-raise Still-Order _
created_session-Within (some s) = Within-pure Still-Order _

-- The part of `queue_payment` that follows the INSERT.
abbrev after_insert :
    Campaign → AuditEvent → AuditEvent → String → Exec World (RecoverySession × Bool)
after_insert c received created id = increment_campaign_total c.id >>= λ _.
    insert_audit_log id received >>= λ _.
    insert_audit_log id created >>= λ _. get_session_by_id id >>= created_session

after_insert-Within :
    (c : Campaign) (received created : AuditEvent) (id : String)
    → Within Still (after_insert c received created id)
after_insert-Within c received created id =
    search
      (
        Still-Order, Within-bind, increment_campaign_total-Within, insert_audit_log-Within,
        get_session_by_id-Within, created_session-Within,
      )
      depth 9

insert_recovery_session-row :
    (id campaign_id prompt : String) (acc : Account) (w : World)
    → (insert_recovery_session id campaign_id prompt acc w).0 ≡ ok tt
    → (insert_recovery_session id campaign_id prompt acc w).1.sessions
      ≡ w.sessions ++ new_session id campaign_id prompt acc (now_sql w) ∷ []
unfolding insert_recovery_session add_session driver_call ◌>>=◌
insert_recovery_session-row id campaign_id prompt acc w h = ground arith

-- The row of a queued payment, column by column.
abbrev pub queued_row :
    Platform → PaymentEntity → String → String → String → ℕ → ℕ → RecoverySession
queued_row os p id campaign_id prompt clock now = record {
  id = id;
  campaign_id = campaign_id;
  call_session_id = none;
  customer_name = customer_name p;
  outstanding_paise = p.amount;
  product_name = if str_eq p.description "" then "outstanding payment" else p.description;
  due_date = due_date os clock p;
  razorpay_payment_id = if str_eq p.id "" then none else some p.id;
  system_prompt = prompt;
  status = pending;
  promise_date = none;
  razorpay_link_id = none;
  contact_attempts = 0;
  max_contact_attempts = 3;
  created_at = now;
  call_started_at = none;
  call_ended_at = none;
  recovered_at = none;
  next_eligible_at = some now;
  zoned = false;
}

-- A delivery that queued a payment: the row it has added is the only change to the sessions.
pub record Queued (os : Platform) (p : PaymentEntity) (w w' : World) : Type 0 where
  pub id : String
  pub campaign : Campaign
  pub newest : newest_running w.campaigns ≡ some campaign
  pub is_newest : IsNewest campaign w.campaigns
  pub prompt : String
  pub prompted : prompt ≡ render_system_prompt os (failed_account os w.clock p)
  pub added :
      w'.sessions ≡ w.sessions ++ queued_row os p id campaign.id prompt w.clock (now_sql w) ∷ []
  pub table :
      w'.sessions
      ≡ w.sessions
        ++ new_session id campaign.id
            (render_system_prompt os (failed_account os w.clock p))
            (failed_account os w.clock p)
            (now_sql w)
          ∷ []

queue_payment-row :
    (os : Platform) (c : Campaign) (p : PaymentEntity) (acc : Account) (w : World)
    (x : RecoverySession × Bool)
    → (queue_payment os c p acc w).0 ≡ ok x
    → (id : String) × ((queue_payment os c p acc w).1.sessions
        ≡ w.sessions ++ new_session id c.id (render_system_prompt os acc) acc (now_sql w) ∷ [])
unfolding queue_payment
queue_payment-row os c p acc w x h =
    let m = bind-Between (new_id "rec_") _ w x h in
    let still : Still w m.state =
      subst (Still w) (ap (λ (r : Result String × World). r.1) m.first)
        ((new_id-Within "rec_").at w) in
    let n =
      bind-Between (insert_recovery_session m.value c.id (render_system_prompt os acc) acc) _
        m.state x m.rest in
    let wrote =
      insert_recovery_session-row m.value c.id (render_system_prompt os acc) acc m.state
        (ap (λ (r : Result Unit × World). r.0) n.first) in
    let later = (after_insert-Within c _ _ m.value).at n.state in
    (
      m.value,
      rw (m.final, n.final)
          (later.0
            ∙ sym (ap (λ (r : Result Unit × World). r.1.sessions) n.first)
            ∙ wrote
            ∙ rw (still.0, still.1) refl),
    )

get_most_recent_active_campaign-ok :
    (w : World) (o : Option Campaign)
    → (get_most_recent_active_campaign w).0 ≡ ok o
    → (newest_running w.campaigns ≡ o) × Still w (get_most_recent_active_campaign w).1
unfolding get_most_recent_active_campaign driver_call ◌>>=◌
get_most_recent_active_campaign-ok w o h = ground arith

find_existing-Within : (id : String) → Within Still (find_existing id)
unfolding find_existing get_session_by driver_call ◌>>=◌
find_existing-Within id = record { at = λ w. ground arith }

queue_unless-row :
    (os : Platform) (c : Campaign) (p : PaymentEntity) (o : Option RecoverySession) (w : World)
    (s : RecoverySession)
    → (queue_unless os c p o w).0 ≡ ok (s, true)
    → (id : String) × ((queue_unless os c p o w).1.sessions
        ≡ w.sessions
          ++ new_session id c.id
              (render_system_prompt os (failed_account os w.clock p))
              (failed_account os w.clock p)
              (now_sql w)
            ∷ [])
unfolding queue_unless ◌>>=◌
queue_unless-row os c p (some e) w s h = absurd (cc)
queue_unless-row os c p none w s h =
    queue_payment-row os c p (failed_account os w.clock p) w (s, true) h

queue_on-Queued :
    (os : Platform) (p : PaymentEntity) (o : Option Campaign) (w t : World) (s : RecoverySession)
    → newest_running w.campaigns ≡ o
    → Still w t
    → (queue_on os p o t).0 ≡ ok (s, true)
    → Queued os p w (queue_on os p o t).1
unfolding queue_on
queue_on-Queued os p none w t s e b h = absurd (cc)
queue_on-Queued os p (some c) w t s e b h =
    let m = bind-Between (find_existing p.id) (queue_unless os c p) t (s, true) h in
    let still : Still t m.state =
      subst (Still t) (ap (λ (r : Result (Option RecoverySession) × World). r.1) m.first)
        ((find_existing-Within p.id).at t) in
    let (id, row) = queue_unless-row os c p m.value m.state s m.rest in
    record {
      id = id;
      campaign = c;
      newest = e;
      is_newest = newest_running-IsNewest w.campaigns c e;
      prompt = render_system_prompt os (failed_account os w.clock p);
      prompted = refl;
      added = rw m.final (row ∙ rw (still.0, still.1, b.0, b.1) refl);
      table = rw m.final (row ∙ rw (still.0, still.1, b.0, b.1) refl);
    }

-- HandlePaymentFailed that reports a new session has added one row and changed no other: pending,
-- due at once, with no contact attempt and a budget of three, for the amount, the description, the
-- payment id, the customer and the due date of the event, with the prompt made from them, in a
-- campaign of the table that is active and than which no active one was created later.
pub handle_payment_failed-Queued :
    (os : Platform) (p : PaymentEntity) (w : World) (s : RecoverySession)
    → (handle_payment_failed os p w).0 ≡ ok (s, true)
    → Queued os p w (handle_payment_failed os p w).1
unfolding handle_payment_failed
handle_payment_failed-Queued os p w s h =
    let m = bind-Between get_most_recent_active_campaign (queue_on os p) w (s, true) h in
    let (newest, still) =
      get_most_recent_active_campaign-ok w m.value
        (ap (λ (r : Result (Option Campaign) × World). r.0) m.first) in
    rw m.final (
      queue_on-Queued os p m.value w m.state s newest
        (subst (Still w) (ap (λ (r : Result (Option Campaign) × World). r.1) m.first) still) m.rest)

find_by-append :
    (column : RecoverySession → Option String) (value : String) (rs : List RecoverySession)
    (r : RecoverySession)
    → equals value (column r) ≡ true
    → (s : RecoverySession) × (find_by column value (rs ++ r ∷ []) ≡ some s)
unfolding find_by
find_by-append column value [] r e = (r, rw e refl)
find_by-append column value (x ∷ xs) r e = elim (Bool-cases (equals value (column x))) [
  | inl t ↦ (x, rw t refl)
  | inr f ↦ let (s, found) = find_by-append column value xs r e in (s, rw f found)
]

-- A failed payment is queued once: after HandlePaymentFailed has reported a new session for an event
-- with a payment id, no delivery for the same payment id changes the database or reports a new
-- session, whatever else it says, at any later time on the database that the first delivery left.
pub handle_payment_failed_once :
    (os : Platform) (p q : PaymentEntity) (w v : World) (s : RecoverySession)
    → str_eq p.id "" ≡ false
    → q.id ≡ p.id
    → (handle_payment_failed os p w).0 ≡ ok (s, true)
    → v.db ≡ (handle_payment_failed os p w).1.db
    → let (result, v') = handle_payment_failed os q v in
      (v'.db ≡ v.db) × ((r : RecoverySession) → result ≢ ok (r, true))
handle_payment_failed_once os p q w v s n e h same =
    let d = handle_payment_failed-Queued os p w s h in
    let acc = failed_account os w.clock p in
    let r = new_session d.id d.campaign.id (render_system_prompt os acc) acc (now_sql w) in
    let held : equals p.id r.razorpay_payment_id ≡ true = rw n (ground (arith, eq_iff p.id p.id)) in
    let table : v.sessions ≡ w.sessions ++ r ∷ [] =
      ap (λ (b : Database). b.sessions) same ∙ d.table in
    let (t, found) = find_by-append (λ x. x.razorpay_payment_id) p.id w.sessions r held in
    let k = handle_payment_failed-Known os q v t (rw e n) (rw (e, table) found) in
    (k.same_db, λ x g. elim k.result [ inl f ↦ cc | inr (f, z) ↦ cc ])
