-- ===== src/Concurrency/Decisions.antt =====
-- How often an outcome can be decided for one customer, whatever comes between the calls of the
-- requests that report it.
use vasuli.Prelude.{
  ℕ, zero, suc, ◌+◌, ◌≤◌, String, ◌≡◌, refl, sym, subst, ap, Bool, true, false, Bool-cases, not,
  ◌&&◌, inl, inr, Option, none, some, List, [], ◌∷◌, ◌++◌, All, arith, str_eq, eq_iff,
  if◌then◌else◌,
}
use vasuli.Exec.{Result, ok, err}
use vasuli.World.{World, Client, PaymentLinkResponse}
use vasuli.Platform.{Platform}
use vasuli.Store.Tables.{RecoverySession}
use vasuli.Store.Rows.{find}
use vasuli.Store.Outcome.{OutcomeWrite, record_outcome}
use vasuli.Campaign.Outcome.{outcome_agreed, end_session_allowed_from, outcome_recordable_from}
use vasuli.Lifecycle.Moves.{is_recordable, IsWithinBudget}
use vasuli.Lifecycle.Tables.{Keyed}
use vasuli.Lifecycle.Histories.{All-find, Evolves-IsWithinBudget}
use vasuli.Lifecycle.Worlds.{Moves}
use vasuli.CallEnd.Recorded.{Recorded, record_outcome-Recorded}
use vasuli.Concurrency.{
  Stage, looking, asking, noting, recording, recorded, stopped, built, committed, found, linked,
  advance, proceed_at, Event, arrive, go_on, other_call, Service, happen, happens,
}
use vasuli.Concurrency.Moves.{
  IsGood, advance-Moves, happen-IsGood, happen-Moves, happens-Moves, call_store-Moves,
}
use vasuli.Concurrency.ClosedCalls.{IsCalled, Bound, Moves-Bound, eq-Bound, recorded-Bound}

-- The request has recorded that the customer agreed, promised or refused, or that the budget is spent.
abbrev pub decided : String → Stage → ℕ
decided id (recorded o) = if str_eq o.session_id id && not (is_recordable o.status) then 1 else 0
decided id (looking call outcome promise_date) = 0
decided id (asking outcome promise_date s) = 0
decided id (noting s e) = 0
decided id (recording o) = 0
decided id (stopped e) = 0

unfoldable pub decisions : String → List Stage → ℕ
decisions id [] = 0
decisions id (t ∷ ts) = decided id t + decisions id ts

built-decided : (id : String) (x : Option OutcomeWrite) → decided id (built x) ≡ 0
built-decided id none = refl
built-decided id (some o) = refl

-- No request has come in yet.
abbrev pub quiet : World → Service
quiet w = record { requests = []; world = w }

module _ (os : Platform) (client : Client) where
  found-decided :
      (id outcome promise_date : String) (now : ℕ) (r : Result (Option RecoverySession))
      → decided id (found os client outcome promise_date now r) ≡ 0
  found-decided id outcome promise_date now (err e) = refl
  found-decided id outcome promise_date now (ok none) = refl
  found-decided id outcome promise_date now (ok (some s)) =
      elim (Bool-cases (outcome_recordable_from s.status)) [
        | inl t ↦ rw t (elim (Bool-cases (str_eq outcome outcome_agreed)) [
          | inl a ↦ rw a refl
          | inr a ↦ rw a (built-decided id _)
        ])
        | inr f ↦ rw f refl
      ]

  linked-decided :
      (id outcome promise_date : String) (s : RecoverySession) (now : ℕ)
      (r : Result PaymentLinkResponse)
      → decided id (linked os client outcome promise_date s now r) ≡ 0
  linked-decided id outcome promise_date s now (ok link) = built-decided id _
  linked-decided id outcome promise_date s now (err e) = refl

module _ (os : Platform) (client : Client) where
  committed-Bound :
      (id : String) (o : OutcomeWrite) (r : Result Bool) (w w' : World) (k : ℕ)
      → Keyed w.sessions
      → Moves w w'
      → record_outcome o end_session_allowed_from w ≡ (r, w')
      → Bound (find id w.sessions) k
      → Bound (find id w'.sessions) (decided id (committed o r) + k)
  committed-Bound id o (err e) w w' k key m h b =
      eq-Bound _ k _ (omega arith) (Moves-Bound id w w' k key m b)
  committed-Bound id o (ok false) w w' k key m h b =
      eq-Bound _ k _ (omega arith) (Moves-Bound id w w' k key m b)
  committed-Bound id o (ok true) w w' k key m h b =
      elim (Bool-cases (str_eq o.session_id id && not (is_recordable o.status))) [
        | inr f ↦ rw f (eq-Bound _ k _ (omega arith) (Moves-Bound id w w' k key m b))
        | inl t ↦
            let same : o.session_id ≡ id = ground (arith, t, eq_iff o.session_id id) in
            let settled : is_recordable o.status ≡ false = ground (arith, t) in
            let done =
              subst (Recorded o end_session_allowed_from w)
                (ap (λ (x : Result Bool × World). x.1) h)
                (record_outcome-Recorded o end_session_allowed_from w
                  (ap (λ (x : Result Bool × World). x.0) h)) in
            rw t (
              subst (λ i. Bound (find i w'.sessions) (1 + k)) same
                (recorded-Bound o w w' k done settled
                  (subst (λ i. Bound (find i w.sessions) k) (sym same) b)))
      ]

  quiet-Bound :
      (id : String) (t : Stage) (w w' : World) (k : ℕ)
      → Keyed w.sessions
      → Moves w w'
      → decided id t ≡ 0
      → Bound (find id w.sessions) (0 + k)
      → Bound (find id w'.sessions) (decided id t + k)
  quiet-Bound id t w w' k key m z b =
      eq-Bound _ (0 + k) _ (omega (arith, z)) (Moves-Bound id w w' (0 + k) key m b)

  advance-Bound :
      (id : String) (t : Stage) (w : World) (k : ℕ)
      → Keyed w.sessions
      → IsGood t
      → Bound (find id w.sessions) (decided id t + k)
      → Bound
          (find id (advance os client t w).1.sessions)
          (decided id (advance os client t w).0 + k)
  unfolding advance
  advance-Bound id (looking call outcome promise_date) w k key g b =
      quiet-Bound id (advance os client (looking call outcome promise_date) w).0 w _ k key
        (advance-Moves os client (looking call outcome promise_date) w g)
        (found-decided os client id outcome promise_date _ _) b
  advance-Bound id (asking outcome promise_date s) w k key g b =
      quiet-Bound id (advance os client (asking outcome promise_date s) w).0 w _ k key
        (advance-Moves os client (asking outcome promise_date s) w g)
        (linked-decided os client id outcome promise_date s _ _) b
  advance-Bound id (noting s e) w k key g b =
      quiet-Bound id (advance os client (noting s e) w).0 w _ k key
        (advance-Moves os client (noting s e) w g) refl b
  advance-Bound id (recording o) w k key g b =
      committed-Bound id o _ w _ k key (advance-Moves os client (recording o) w g) refl
        (eq-Bound _ (0 + k) k (omega arith) b)
  advance-Bound id (recorded o) w k key g b = b
  advance-Bound id (stopped e) w k key g b = b

  proceed_at-Bound :
      (id : String) (i : ℕ) (ts : List Stage) (w : World) (k : ℕ)
      → Keyed w.sessions
      → All IsGood ts
      → Bound (find id w.sessions) (decisions id ts + k)
      → Bound
          (find id (proceed_at os client i ts w).1.sessions)
          (decisions id (proceed_at os client i ts w).0 + k)
  unfolding proceed_at decisions
  proceed_at-Bound id zero [] w k key g b = b
  proceed_at-Bound id (suc i) [] w k key g b = b
  proceed_at-Bound id zero (t ∷ ts) w k key g b =
      eq-Bound _ (decided id _ + (decisions id ts + k)) _ (omega arith) (
        advance-Bound id t w (decisions id ts + k) key g.0
          (eq-Bound _ (decided id t + decisions id ts + k) _ (omega arith) b))
  proceed_at-Bound id (suc i) (t ∷ ts) w k key g b =
      eq-Bound _ (decisions id (proceed_at os client i ts w).0 + (decided id t + k)) _ (omega arith)
        (proceed_at-Bound id i ts w (decided id t + k) key g.1
          (eq-Bound _ (decided id t + decisions id ts + k) _ (omega arith) b))

  decisions-append :
      (id call outcome promise_date : String) (ts : List Stage)
      → decisions id (ts ++ looking call outcome promise_date ∷ []) ≡ decisions id ts
  unfolding decisions
  decisions-append id call outcome promise_date [] = omega arith
  decisions-append id call outcome promise_date (t ∷ ts) =
      omega (arith, decisions-append id call outcome promise_date ts)

  happen-Bound :
      (id : String) (e : Event) (s : Service)
      → Keyed s.world.sessions
      → All IsGood s.requests
      → Bound (find id s.world.sessions) (decisions id s.requests)
      → Bound
          (find id (happen os client e s).world.sessions)
          (decisions id (happen os client e s).requests)
  unfolding happen
  happen-Bound id (arrive call outcome promise_date) s key g b =
      eq-Bound _ _ _ (sym (decisions-append id call outcome promise_date s.requests)) b
  happen-Bound id (go_on i) s key g b = eq-Bound _ (decisions id _ + 0) _ (omega arith) (
      proceed_at-Bound id i s.requests s.world 0 key g
        (eq-Bound _ (decisions id s.requests) _ (omega arith) b))
  happen-Bound id (other_call c) s key g b =
      Moves-Bound id s.world _ (decisions id s.requests) key (call_store-Moves c s.world) b

  happens-Bound :
      (id : String) (es : List Event) (s : Service)
      → Keyed s.world.sessions
      → All IsGood s.requests
      → Bound (find id s.world.sessions) (decisions id s.requests)
      → Bound
          (find id (happens os client es s).world.sessions)
          (decisions id (happens os client es s).requests)
  unfolding happens
  happens-Bound id [] s key g b = b
  happens-Bound id (e ∷ es) s key g b =
      happens-Bound id es (happen os client e s) ((happen-Moves os client e s g).keyed key)
        (happen-IsGood os client e s g) (happen-Bound id e s key g b)

  start-Bound :
      (id : String) (o : Option RecoverySession) (w : World)
      → find id w.sessions ≡ o
      → All IsCalled w.sessions
      → Bound o 0
  start-Bound id none w f a = refl
  start-Bound id (some r) w f a = (omega arith, (All-find IsCalled id w.sessions r a f).called)

  -- However the requests interleave: when any number of EndSession calls run at once, each between any
  -- two of its calls of the store or of the provider interrupted by the others and by every other
  -- change of the store, the calls of EndSession that have recorded a final outcome for a customer are
  -- never more than the phone calls that were made to that customer, and these never more than three.
  -- In the table at the start the ids are distinct, the budgets hold, and a session that is in a
  -- call has had one.
  pub decisions-le-calls :
      (es : List Event) (w : World) (id : String) (r : RecoverySession)
      → Keyed w.sessions
      → All IsCalled w.sessions
      → All IsWithinBudget w.sessions
      → find id (happens os client es (quiet w)).world.sessions ≡ some r
      → (decisions id (happens os client es (quiet w)).requests ≤ r.contact_attempts)
        × (r.contact_attempts ≤ 3)
  unfolding decisions
  decisions-le-calls es w id r key a h f =
      let moves = happens-Moves os client es (quiet w) tt in
      let bound : Bound (some r) (decisions id (happens os client es (quiet w)).requests) =
        subst (λ o. Bound o (decisions id (happens os client es (quiet w)).requests)) f
          (happens-Bound id es (quiet w) key tt (start-Bound id (find id w.sessions) w refl a)) in
      let budget =
        All-find IsWithinBudget id _ r (Evolves-IsWithinBudget w.sessions _ (moves.rows key) h) f in
      (omega (arith, bound.0), budget.spent)
