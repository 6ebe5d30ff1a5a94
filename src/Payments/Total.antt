-- ===== src/Payments/Total.antt =====
-- How many recoveries the payment events of a history report.
use vasuli.Prelude.{
  ℕ, suc, ◌+◌, ◌≤◌, String, ◌≡◌, refl, ap, ◌∙◌, Bool, true, false, Bool-cases, inl, inr, Option,
  List, [], ◌∷◌, arith, count, str_eq,
}
use vasuli.Exec.{Result, ok, err}
use vasuli.World.{World, Client}
use vasuli.Platform.{Platform}
use vasuli.Store.Tables.{RecoverySession, Payload, Status, recovered}
use vasuli.Store.Rows.{find, update}
use vasuli.Store.Statements.{now_sql}
use vasuli.Store.Outcome.{is_open, is_recovered, settle_row}
use vasuli.Campaign.Payments.{handle_payment_captured, handle_payment_link_paid}
use vasuli.Lifecycle.Moves.{RowMoves, RowMoves-recovered}
use vasuli.Lifecycle.Tables.{Keyed, Evolves}
use vasuli.Payments.Settled.{
  Settled, handle_payment_captured-Settled, handle_payment_link_paid-Settled,
}
use vasuli.History.{
  Request, captured, link_paid, create, assign, end, payment_failed, reschedule, wait, step, run,
  step-Moves,
}

abbrev pub recovered_rows : List RecoverySession → ℕ
recovered_rows rs = count (λ r. is_recovered r.status) rs

abbrev pub tally : Result Bool → ℕ
tally (ok true) = 1
tally (ok false) = 0
tally (err e) = 0

module _ (os : Platform) (client : Client) where
  -- Whether a request is a payment event that reports a recovery.
  abbrev pub reported : World → Request → ℕ
  reported w (captured id) = tally (handle_payment_captured id w).0
  reported w (link_paid link_id id) = tally (handle_payment_link_paid link_id id w).0
  reported w _ = 0

  unfoldable pub recoveries : World → List Request → ℕ
  unfolding step
  recoveries w [] = 0
  recoveries w (r ∷ rs) = reported w r + recoveries (step os client w r) rs

is_recovered-status : (s : Status) → is_recovered s ≡ true → s ≡ recovered
is_recovered-status s h = ground arith

RowMoves-is_recovered :
    (r r' : RecoverySession)
    → RowMoves r r'
    → is_recovered r.status ≡ true
    → is_recovered r'.status ≡ true
RowMoves-is_recovered r r' m h =
    ap is_recovered (RowMoves-recovered m (is_recovered-status r.status h))

-- No session stops being recovered.
Evolves-recovered_rows :
    (rs rs' : List RecoverySession) → Evolves rs rs' → recovered_rows rs ≤ recovered_rows rs'
Evolves-recovered_rows [] rs' e = omega arith
Evolves-recovered_rows (r ∷ rs) [] e = absurd e
Evolves-recovered_rows (r ∷ rs) (r' ∷ rs') e = elim (Bool-cases (is_recovered r.status)) [
  | inl t ↦
      rw (t, RowMoves-is_recovered r r' e.0 t) (omega (arith, Evolves-recovered_rows rs rs' e.1))
  | inr f ↦ rw f (ground (arith, Evolves-recovered_rows rs rs' e.1))
]

-- Marking an open session adds one.
settle_row-recovered_rows :
    (id : String) (now : ℕ) (rs : List RecoverySession)
    → is_open (find id rs) ≡ true
    → recovered_rows (update id (settle_row now) rs) ≡ suc (recovered_rows rs)
unfolding find update settle_row
settle_row-recovered_rows id now [] h = absurd (cc)
settle_row-recovered_rows id now (r ∷ rs) h = elim (Bool-cases (str_eq r.id id)) [
  | inl hit ↦ rw hit (ground (arith, rw hit at h))
  | inr miss ↦ rw miss (ground (arith, settle_row-recovered_rows id now rs (rw miss at h)))
]

Settled-recovered_rows :
    {column : RecoverySession → Option String} {value : String} {payload : Payload} (w w' : World)
    → Settled column value payload w w'
    → recovered_rows w'.sessions ≡ suc (recovered_rows w.sessions)
Settled-recovered_rows w w' e =
    ap recovered_rows e.captured.table
    ∙ settle_row-recovered_rows e.row.id (now_sql w) w.sessions e.captured.open_before

module _ (os : Platform) (client : Client) where
  step-recovered_rows :
      (w : World) (r : Request)
      → Keyed w.sessions
      → recovered_rows w.sessions ≤ recovered_rows (step os client w r).sessions
  step-recovered_rows w r k =
      Evolves-recovered_rows w.sessions _ ((step-Moves os client w r).rows k)

  -- What one answer adds.
  tally-recovered_rows :
      (w w' : World) (o : Result Bool)
      → recovered_rows w.sessions ≤ recovered_rows w'.sessions
      → (o ≡ ok true → recovered_rows w'.sessions ≡ suc (recovered_rows w.sessions))
      → tally o + recovered_rows w.sessions ≤ recovered_rows w'.sessions
  tally-recovered_rows w w' (ok true) g h = omega (arith, h refl)
  tally-recovered_rows w w' (ok false) g h = omega (arith, g)
  tally-recovered_rows w w' (err e) g h = omega (arith, g)

  unreported :
      (w : World) (r : Request)
      → Keyed w.sessions
      → 0 + recovered_rows w.sessions ≤ recovered_rows (step os client w r).sessions
  unreported w r k = omega (arith, step-recovered_rows w r k)

  reported-recovered_rows :
      (w : World) (r : Request)
      → Keyed w.sessions
      → reported os client w r + recovered_rows w.sessions
        ≤ recovered_rows (step os client w r).sessions
  unfolding step
  reported-recovered_rows w (captured id) k =
      tally-recovered_rows w (handle_payment_captured id w).1 (handle_payment_captured id w).0
        (step-recovered_rows w (captured id) k)
        (λ h. Settled-recovered_rows w _ (handle_payment_captured-Settled id w h))
  reported-recovered_rows w (link_paid link_id id) k =
      tally-recovered_rows w (handle_payment_link_paid link_id id w).1
        (handle_payment_link_paid link_id id w).0 (step-recovered_rows w (link_paid link_id id) k)
        (λ h. Settled-recovered_rows w _ (handle_payment_link_paid-Settled link_id id w h))
  reported-recovered_rows w (create name accounts) k = unreported w (create name accounts) k
  reported-recovered_rows w (assign call) k = unreported w (assign call) k
  reported-recovered_rows w (end call outcome promise_date) k =
      unreported w (end call outcome promise_date) k
  reported-recovered_rows w (payment_failed p) k = unreported w (payment_failed p) k
  reported-recovered_rows w (reschedule id at) k = unreported w (reschedule id at) k
  reported-recovered_rows w (wait n) k = unreported w (wait n) k

  -- Recovered money is reported once per session: in any history, with any requests between and any
  -- failures, the payment events of both kinds that report a recovery are no more than the sessions
  -- that became recovered in it, so that a session is never reported twice, neither by the same event
  -- delivered again nor by the event of the other kind. The ids of the table at the start are
  -- distinct.
  pub recoveries-le-recovered_rows :
      (w : World) (rs : List Request)
      → Keyed w.sessions
      → recoveries os client w rs + recovered_rows w.sessions
        ≤ recovered_rows (run os client w rs).sessions
  unfolding recoveries run
  recoveries-le-recovered_rows w [] k = omega arith
  recoveries-le-recovered_rows w (r ∷ rs) k = omega (
    arith,
    reported-recovered_rows w r k,
    recoveries-le-recovered_rows (step os client w r) rs ((step-Moves os client w r).keyed k),
  )
