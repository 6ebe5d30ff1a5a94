-- ===== src/History/Contact.antt =====
-- Who may still be called after any history, and how often.
use vasuli.Prelude.{String, ◌≡◌, true, some, List, All}
use vasuli.World.{World, Client}
use vasuli.Platform.{Platform}
use vasuli.Store.Tables.{RecoverySession}
use vasuli.Store.Rows.{find}
use vasuli.Lifecycle.Moves.{is_stopped, IsLeftAlone, RowMoves-IsLeftAlone, IsWithinBudget}
use vasuli.Lifecycle.Tables.{Keyed}
use vasuli.Lifecycle.Histories.{Evolves-find, Evolves-IsWithinBudget}
use vasuli.Lifecycle.Worlds.{Extends}
use vasuli.History.{Request, run, run-Moves}

module _ (os : Platform) (client : Client) where
  -- Once a session is refused, failed or recovered, no later request of any kind, in any order and
  -- with any failures, makes another call to the customer: the session is still in the table, with
  -- the same number of contact attempts, bound to the same call, and in the same status or, when a
  -- payment came in, recovered. A recovered session stays recovered. The ids of the table that the
  -- history starts from are distinct.
  pub stopped_forever :
      (w : World) (rs : List Request) (id : String) (r : RecoverySession)
      → Keyed w.sessions
      → find id w.sessions ≡ some r
      → is_stopped r.status ≡ true
      → (r' : RecoverySession) × (find id (run os client w rs).sessions ≡ some r')
        × IsLeftAlone r r'
  stopped_forever w rs id r k f h =
      let (r', found, moves) =
        Evolves-find id w.sessions _ r ((run-Moves os client w rs).rows k) f in
      (r', found, RowMoves-IsLeftAlone h moves)

  -- No history gives a session more than three contact attempts: if the sessions of the table that
  -- it starts from have distinct ids, a budget of three and at most three attempts, so has every
  -- session that the table holds afterwards, those added on the way included.
  pub three_attempts_at_most :
      (w : World) (rs : List Request)
      → Keyed w.sessions
      → All IsWithinBudget w.sessions
      → All IsWithinBudget (run os client w rs).sessions
  three_attempts_at_most w rs k b =
      Evolves-IsWithinBudget w.sessions _ ((run-Moves os client w rs).rows k) b

  -- The audit log is append-only: after any history, failing requests and rolled back transactions
  -- included, the log is the log of before with rows added at its end.
  pub audit_log_append_only :
      (w : World) (rs : List Request) → Extends w.audit_log (run os client w rs).audit_log
  audit_log_append_only w rs = (run-Moves os client w rs).log

  -- No history gives two sessions the same id.
  pub ids_stay_distinct :
      (w : World) (rs : List Request) → Keyed w.sessions → Keyed (run os client w rs).sessions
  ids_stay_distinct w rs k = (run-Moves os client w rs).keyed k
