-- ===== src/Lifecycle/Moves.antt =====
-- The moves of one row of `recovery_sessions`, and what every sequence of moves keeps.
use vasuli.Prelude.{ℕ, ◌≤◌, String, ◌≡◌, refl, ◌⊎◌, inl, Bool, true, false, none, some, arith}
use vasuli.Store.Tables.{
  Status, pending, active, link_sent, promised, refused, unclear, recovered, failed,
  RecoverySession,
}
use vasuli.Store.Schedule.{still_contactable}
use vasuli.Store.Assign.{claim}
use vasuli.Store.Outcome.{OutcomeWrite, apply_outcome, settle_row, is_recovered}

-- The statuses that end contact.
abbrev pub is_stopped : Status → Bool
is_stopped refused = true
is_stopped failed = true
is_stopped recovered = true
is_stopped _ = false

-- The statuses from which an outcome may be recorded.
abbrev pub is_recordable : Status → Bool
is_recordable active = true
is_recordable unclear = true
is_recordable _ = false

-- The statuses that an outcome may lead to.
abbrev pub is_outcome : Status → Bool
is_outcome link_sent = true
is_outcome promised = true
is_outcome refused = true
is_outcome unclear = true
is_outcome failed = true
is_outcome _ = false

pub data RowMove (r r' : RecoverySession) : Type 0 where
  claimed :
      (call : String) (now : ℕ) → still_contactable r ≡ true → r' ≡ claim call now r → RowMove r r'
  ended :
      (o : OutcomeWrite) (now : ℕ)
      → is_recordable r.status ≡ true
      → is_outcome o.status ≡ true
      → r' ≡ apply_outcome o now r
      → RowMove r r'
  paid : (now : ℕ) → is_recovered r.status ≡ false → r' ≡ settle_row now r → RowMove r r'
  rescheduled : (at : ℕ) → r' ≡ record r { next_eligible_at = some at; zoned = true } → RowMove r r'

pub data RowMoves (r : RecoverySession) : RecoverySession → Type 0 where
  unmoved : RowMoves r r
  later : {s t : RecoverySession} → RowMoves r s → RowMove s t → RowMoves r t

pub RowMoves-trans : {r s t : RecoverySession} → RowMoves r s → RowMoves s t → RowMoves r t
RowMoves-trans m unmoved = m
RowMoves-trans m (later n x) = later (RowMoves-trans m n) x

-- A row as InsertRecoverySession makes it.
pub record IsFresh (r : RecoverySession) : Type 0 where
  pub is_pending : r.status ≡ pending
  pub uncalled : r.contact_attempts ≡ 0
  pub three_calls : r.max_contact_attempts ≡ 3
  pub unbound : r.call_session_id ≡ none
  pub unlinked : r.razorpay_link_id ≡ none

pub RowMove-id : {r s : RecoverySession} → RowMove r s → s.id ≡ r.id
unfolding claim apply_outcome settle_row
RowMove-id (claimed call now c e) = ground arith
RowMove-id (ended o now a b e) = ground arith
RowMove-id (paid now a e) = ground arith
RowMove-id (rescheduled at e) = ground arith

pub RowMoves-id : {r s : RecoverySession} → RowMoves r s → s.id ≡ r.id
RowMoves-id unmoved = refl
RowMoves-id (later m x) = cc (RowMoves-id m, RowMove-id x)

-- What the calls made so far leave of the contact budget.
pub record IsWithinBudget (r : RecoverySession) : Type 0 where
  pub budget : r.max_contact_attempts ≡ 3
  pub spent : r.contact_attempts ≤ 3

RowMove-IsWithinBudget : {r s : RecoverySession} → RowMove r s → IsWithinBudget r → IsWithinBudget s
unfolding claim apply_outcome settle_row still_contactable
RowMove-IsWithinBudget (claimed call now c e) v = ground arith
RowMove-IsWithinBudget (ended o now a b e) v = ground arith
RowMove-IsWithinBudget (paid now a e) v = ground arith
RowMove-IsWithinBudget (rescheduled at e) v = ground arith

pub RowMoves-IsWithinBudget :
    {r s : RecoverySession} → RowMoves r s → IsWithinBudget r → IsWithinBudget s
RowMoves-IsWithinBudget unmoved v = v
RowMoves-IsWithinBudget (later m x) v = RowMove-IsWithinBudget x (RowMoves-IsWithinBudget m v)

-- The row of a customer who must not be called again: no later call, and no status but the
-- confirmation of the payment.
pub record IsLeftAlone (r s : RecoverySession) : Type 0 where
  pub same_calls : s.contact_attempts ≡ r.contact_attempts
  pub same_call : s.call_session_id ≡ r.call_session_id
  pub settled : (s.status ≡ r.status) ⊎ (s.status ≡ recovered)

RowMove-IsLeftAlone :
    {q r s : RecoverySession}
    → is_stopped q.status ≡ true
    → RowMove r s
    → IsLeftAlone q r
    → IsLeftAlone q s
unfolding claim apply_outcome settle_row still_contactable
RowMove-IsLeftAlone h (claimed call now c e) v = ground arith
RowMove-IsLeftAlone h (ended o now a b e) v = ground arith
RowMove-IsLeftAlone h (paid now a e) v = ground arith
RowMove-IsLeftAlone h (rescheduled at e) v = ground arith

pub RowMoves-IsLeftAlone :
    {r s : RecoverySession} → is_stopped r.status ≡ true → RowMoves r s → IsLeftAlone r s
RowMoves-IsLeftAlone h unmoved = record { same_calls = refl; same_call = refl; settled = inl refl }
RowMoves-IsLeftAlone h (later m x) = RowMove-IsLeftAlone h x (RowMoves-IsLeftAlone h m)

-- Nothing leads out of `recovered`.
RowMove-recovered :
    {r s : RecoverySession} → RowMove r s → r.status ≡ recovered → s.status ≡ recovered
unfolding claim apply_outcome settle_row still_contactable
RowMove-recovered (claimed call now c e) v = ground arith
RowMove-recovered (ended o now a b e) v = ground arith
RowMove-recovered (paid now a e) v = ground arith
RowMove-recovered (rescheduled at e) v = ground arith

pub RowMoves-recovered :
    {r s : RecoverySession} → RowMoves r s → r.status ≡ recovered → s.status ≡ recovered
RowMoves-recovered unmoved v = v
RowMoves-recovered (later m x) v = RowMove-recovered x (RowMoves-recovered m v)
