-- ===== src/Concurrency/ClosedCalls.antt =====
-- The calls of a session that an outcome or a new call has closed: no move of a row takes one away,
-- and deciding an outcome adds one.
use vasuli.Prelude.{
  ℕ, ◌+◌, ◌-◌, ◌≤◌, String, ◌≡◌, refl, sym, subst, ap, ◌∙◌, true, false, Option, none, some, List,
  arith, if◌then◌else◌,
}
use vasuli.World.{World}
use vasuli.Store.Tables.{RecoverySession}
use vasuli.Store.Rows.{find}
use vasuli.Store.Schedule.{still_contactable}
use vasuli.Store.Statements.{now_sql}
use vasuli.Store.Assign.{claim}
use vasuli.Store.Outcome.{OutcomeWrite, apply_outcome, settle_row}
use vasuli.Campaign.Outcome.{end_session_allowed_from, outcome_recordable_from}
use vasuli.Lifecycle.Moves.{
  RowMove, claimed, ended, paid, rescheduled, RowMoves, unmoved, later, is_recordable, IsFresh,
}
use vasuli.Lifecycle.Tables.{Keyed, Evolves}
use vasuli.Lifecycle.Histories.{Evolves-find, Evolves-new}
use vasuli.Lifecycle.Worlds.{Moves}
use vasuli.Lifecycle.Outcome.{one_of-recordable}
use vasuli.Lookup.{find-update_self}
use vasuli.CallEnd.Recorded.{Recorded}

-- A call that no outcome has settled yet.
abbrev pub open_call_of : RecoverySession → ℕ
open_call_of r = if is_recordable r.status then 1 else 0

abbrev pub closed_calls : RecoverySession → ℕ
closed_calls r = r.contact_attempts - open_call_of r

-- A session has an open call only if a call was made.
pub record IsCalled (r : RecoverySession) : Type 0 where
  pub called : open_call_of r ≤ r.contact_attempts

record Closes (r s : RecoverySession) : Type 0 where
  called : open_call_of s ≤ s.contact_attempts
  more : closed_calls r ≤ closed_calls s

RowMove-Closes :
    {r s : RecoverySession} → RowMove r s → open_call_of r ≤ r.contact_attempts → Closes r s
unfolding claim apply_outcome settle_row still_contactable
RowMove-Closes (claimed call now c e) v = ground arith
RowMove-Closes (ended o now a b e) v = ground arith
RowMove-Closes (paid now a e) v = ground arith
RowMove-Closes (rescheduled at e) v = ground arith

RowMoves-Closes :
    {r s : RecoverySession} → RowMoves r s → open_call_of r ≤ r.contact_attempts → Closes r s
RowMoves-Closes unmoved v = record { called = v; more = omega arith }
RowMoves-Closes (later m x) v =
    let a = RowMoves-Closes m v in
    let b = RowMove-Closes x a.called in
    record { called = b.called; more = omega (arith, a.more, b.more) }

abbrev pub Bound : Option RecoverySession → ℕ → Type 0
Bound none n = n ≡ 0
Bound (some r) n = (n ≤ closed_calls r) × (open_call_of r ≤ r.contact_attempts)

fresh-Bound : (r : RecoverySession) → IsFresh r → Bound (some r) 0
fresh-Bound r f = ground arith

moved-Bound : (r s : RecoverySession) (n : ℕ) → RowMoves r s → Bound (some r) n → Bound (some s) n
moved-Bound r s n m b = let c = RowMoves-Closes m b.1 in (omega (arith, c.more), c.called)

Evolves-Bound :
    (id : String) (rs rs' : List RecoverySession) (n : ℕ) (o o' : Option RecoverySession)
    → Evolves rs rs'
    → find id rs ≡ o
    → find id rs' ≡ o'
    → Bound o n
    → Bound o' n
Evolves-Bound id rs rs' n none none e f g b = b
Evolves-Bound id rs rs' n none (some s) e f g b =
    let new = Evolves-new id rs rs' s e f g in
    rw b (moved-Bound new.origin s 0 new.moves (fresh-Bound new.origin new.fresh))
Evolves-Bound id rs rs' n (some r) o' e f g b =
    let (s, h, m) = Evolves-find id rs rs' r e f in
    let same : some s ≡ o' = sym h ∙ g in subst (λ x. Bound x n) same (moved-Bound r s n m b)

pub Moves-Bound :
    (id : String) (w w' : World) (n : ℕ)
    → Keyed w.sessions
    → Moves w w'
    → Bound (find id w.sessions) n
    → Bound (find id w'.sessions) n
Moves-Bound id w w' n k m b = Evolves-Bound id w.sessions w'.sessions n _ _ (m.rows k) refl refl b

pub eq-Bound : (o : Option RecoverySession) (m n : ℕ) → m ≡ n → Bound o m → Bound o n
eq-Bound o m n e b = subst (Bound o) e b

-- A recordable row whose outcome is decided has one more closed call.
applied-Bound :
    (o : OutcomeWrite) (now : ℕ) (r : RecoverySession) (k : ℕ)
    → outcome_recordable_from r.status ≡ true
    → is_recordable o.status ≡ false
    → Bound (some r) k
    → Bound (some (apply_outcome o now r)) (1 + k)
unfolding apply_outcome
applied-Bound o now r k t f b =
    ground (arith, one_of-recordable end_session_allowed_from r.status (refl, (refl, tt)) t)

pub recorded-Bound :
    (o : OutcomeWrite) (w w' : World) (k : ℕ)
    → Recorded o end_session_allowed_from w w'
    → is_recordable o.status ≡ false
    → Bound (find o.session_id w.sessions) k
    → Bound (find o.session_id w'.sessions) (1 + k)
unfolding apply_outcome
recorded-Bound o w w' k d f b =
    let before : Bound (some d.row) k = subst (λ x. Bound x k) d.found b in
    let after : find o.session_id w'.sessions ≡ some (apply_outcome o (now_sql w) d.row) =
      ap (find o.session_id) d.table
      ∙ find-update_self o.session_id (apply_outcome o (now_sql w)) w.sessions d.row d.found refl in
    subst (λ x. Bound x (1 + k)) (sym after)
      (applied-Bound o (now_sql w) d.row k d.allowed_from f before)
