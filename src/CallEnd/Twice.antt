-- ===== src/CallEnd/Twice.antt =====
-- A call that has ended with an outcome that settles it cannot be ended again.
use vasuli.Prelude.{
  ℕ, String, ◌≡◌, refl, ap, subst, ◌∙◌, inl, inr, Bool, true, false, Bool-cases, ◌||◌, Option, none,
  some, arith, str_eq,
}
use vasuli.Exec.{ok}
use vasuli.World.{World, Client, PaymentLinkResponse}
use vasuli.Platform.{Platform}
use vasuli.Store.Tables.{RecoverySession, Database}
use vasuli.Store.Rows.{update}
use vasuli.Store.Statements.{now_sql}
use vasuli.Store.Outcome.{OutcomeWrite, apply_outcome}
use vasuli.Campaign.Outcome.{
  outcome_agreed, outcome_promised, outcome_refused, outcome_recordable_from, build_outcome_write,
  agreed_write, promised_write, refused_write,
}
use vasuli.Campaign.EndSession.{end_session}
use vasuli.Lifecycle.Tables.{Keyed}
use vasuli.Lookup.{find_by-update}
use vasuli.CallEnd.Once.{Unrecorded, end_session-Ended, end_session_settled}

-- The outcomes after which no other may be recorded for the call.
abbrev pub is_decision : String → Bool
is_decision outcome =
    str_eq outcome outcome_agreed
    || str_eq outcome outcome_promised
    || str_eq outcome outcome_refused

-- What is written for a decision is about this session, and settles it.
record Settles (s : RecoverySession) (o : OutcomeWrite) : Type 0 where
  about : o.session_id ≡ s.id
  settled : outcome_recordable_from o.status ≡ false

agreed-Settles :
    (s : RecoverySession) (now : ℕ) (outcome promise_date : String) (os : Platform)
    (link : Option PaymentLinkResponse) (o : OutcomeWrite)
    → str_eq outcome outcome_agreed ≡ true
    → build_outcome_write os s now outcome promise_date link ≡ some o
    → Settles s o
unfolding build_outcome_write agreed_write
agreed-Settles s now outcome promise_date os none o a h = absurd (cc (rw a at h))
agreed-Settles s now outcome promise_date os (some link) o a h =
    let e : agreed_write s now link ≡ o = cc (rw a at h) in
    subst (Settles s) e (record { about = refl; settled = ground arith })

build_outcome_write-Settles :
    (os : Platform) (s : RecoverySession) (now : ℕ) (outcome promise_date : String)
    (link : Option PaymentLinkResponse) (o : OutcomeWrite)
    → is_decision outcome ≡ true
    → build_outcome_write os s now outcome promise_date link ≡ some o
    → Settles s o
unfolding build_outcome_write promised_write refused_write
build_outcome_write-Settles os s now outcome promise_date link o d h =
    elim (Bool-cases (str_eq outcome outcome_agreed)) [
      | inl a ↦ agreed-Settles s now outcome promise_date os link o a h
      | inr a ↦ elim (Bool-cases (str_eq outcome outcome_promised)) [
        | inl p ↦
            let e : promised_write os s now promise_date ≡ o = cc (rw (a, p) at h) in
            subst (Settles s) e (record { about = refl; settled = ground arith })
        | inr p ↦ elim (Bool-cases (str_eq outcome outcome_refused)) [
          | inl r ↦
              let e : refused_write s ≡ o = cc (rw (a, p, r) at h) in
              subst (Settles s) e (record { about = refl; settled = ground arith })
          | inr r ↦ absurd (cc (rw (a, p, r) at d))
        ]
      ]
    ]

module _ (os : Platform) (client : Client) where
  -- Once EndSession has recorded that the customer agreed, promised or refused, no later EndSession
  -- for the same call, whatever it reports, records anything: it leaves the database as it is, asks
  -- the provider for no link and does not report success, but that the outcome is recorded already,
  -- unless failures of the driver are to come. The ids of the table are distinct, and the later
  -- request comes at any time on the database that the first one left.
  pub end_session_once :
      (call outcome promise_date outcome' promise_date' : String) (w v : World)
      → Keyed w.sessions
      → is_decision outcome ≡ true
      → (end_session os client call outcome promise_date w).0 ≡ ok tt
      → v.db ≡ (end_session os client call outcome promise_date w).1.db
      → Unrecorded v (end_session os client call outcome' promise_date' v)
  unfolding apply_outcome
  end_session_once call outcome promise_date outcome' promise_date' w v k d h same =
      let e = end_session-Ended os client call outcome promise_date w h in
      let q =
        build_outcome_write-Settles os e.row e.at.clock outcome promise_date e.link e.write d
          e.built in
      let change = apply_outcome e.write (now_sql e.at) in
      let table : v.sessions ≡ update e.row.id change w.sessions =
        ap (λ (b : Database). b.sessions) same
        ∙ e.recorded.table
        ∙ ap (λ (i : String). update i change e.at.sessions) q.about
        ∙ ap (λ (b : Database). update e.row.id change b.sessions) e.same_db in
      end_session_settled os client call outcome' promise_date' v (change e.row)
        (rw table (find_by-update _ call change w.sessions e.row k e.bound refl)) q.settled
