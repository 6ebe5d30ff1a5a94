-- ===== src/CallEnd/FollowUp.antt =====
-- When an outcome lets the customer be called again.
use vasuli.Prelude.{ℕ, ◌≡◌, ◌⊎◌, ◌≤◌, false, none, some, ltb}
use vasuli.Platform.{Platform}
use vasuli.Store.Tables.{RecoverySession}
use vasuli.Store.Schedule.{still_contactable}
use vasuli.Store.Outcome.{OutcomeWrite}
use vasuli.CallEnd.Recorded.{ended_row}

-- The outcome ends the contact: the row that it leaves is not contactable, and there is no next call.
pub record Closes (now : ℕ) (s : RecoverySession) (o : OutcomeWrite) : Type 0 where
  pub no_call : o.next_eligible_at ≡ none
  pub closed : still_contactable (ended_row o now s) ≡ false

-- The outcome schedules a next call, not before `now`, and the row that it leaves is contactable
-- exactly if the session has contact attempts left.
pub record Reschedules (now : ℕ) (s : RecoverySession) (o : OutcomeWrite) : Type 0 where
  pub at : ℕ
  pub next_call : o.next_eligible_at ≡ some at
  pub later : now ≤ at
  pub callable :
      still_contactable (ended_row o now s) ≡ ltb s.contact_attempts s.max_contact_attempts

abbrev pub Decides : ℕ → RecoverySession → OutcomeWrite → Type 0
Decides now s o = Closes now s o ⊎ Reschedules now s o
