-- ===== src/Scheduling/Queue.antt =====
-- The queue view and the assigner agree on who is called next.
use vasuli.Prelude.{
  ℕ, String, ◌≡◌, refl, sym, ap, ◌∙◌, All, Option-cases, inl, inr, true, false, Bool-cases, Option,
  none, some, List, [], ◌∷◌, arith, eq_iff, map, select, ◌&&◌, ℕ,
}
use vasuli.Exec.{ok, ◌>>=◌}
use vasuli.World.{World, queue_view, ranked, driver_call}
use vasuli.Store.Tables.{RecoverySession, Campaign, Database}
use vasuli.Store.Rows.{sooner, ordered}
use vasuli.Store.Schedule.{
  due_now, bucket, eligible_now, still_contactable, in_active_campaign, candidates,
}
use vasuli.Store.Statements.{now_sql}
use vasuli.Store.Assign.{assign_next_pending}
use vasuli.Store.Reports.{QueueEntry, queue_entry, in_campaign, campaign_queue}
use vasuli.Lifecycle.Tables.{Keyed, All-select}
use vasuli.Lifecycle.Histories.{All-find}
use vasuli.Lifecycle.Assign.{IsNext}
use vasuli.Scheduling.Choice.{IsFirst, called_row, assign_next_pending-Picked}
use vasuli.Scheduling.Ordering.{
  head, All-ordered, ordered-All, ordered-Sorted, select-All, none-All, head-All, All-head,
  sooner_tie,
}

-- The first entry in the bucket `due_now`.
abbrev pub first_due : List QueueEntry → Option RecoverySession
first_due [] = none
first_due (e ∷ es) = let rest = first_due es in elim e.bucket_of [ due_now ↦ some e.row | _ ↦ rest ]

first_due-entries :
    (now : ℕ) (rs : List RecoverySession)
    → first_due (map (queue_entry now) rs) ≡ head (select (eligible_now now) rs)
unfolding bucket
first_due-entries now [] = refl
first_due-entries now (r ∷ rs) = elim (Bool-cases (eligible_now now r)) [
  | inl t ↦ rw t refl
  | inr f ↦ elim (Bool-cases (still_contactable r)) [
    | inl t ↦ rw (f, t) (first_due-entries now rs)
    | inr g ↦ rw (f, g) (first_due-entries now rs)
  ]
]

in_active_campaign-same :
    (cs : List Campaign) (r s : RecoverySession)
    → s.campaign_id ≡ r.campaign_id
    → in_active_campaign cs r ≡ true
    → in_active_campaign cs s ≡ true
in_active_campaign-same [] r s e h = h
in_active_campaign-same (c ∷ cs) r s e h = ground (arith, e, h, in_active_campaign-same cs r s e)

pub campaign_queue-entries :
    (id : String) (w : World) (es : List QueueEntry)
    → (campaign_queue id w).0 ≡ ok es
    → map
        (queue_entry (now_sql w))
        (ordered (ranked queue_view w) (select (in_campaign id) w.sessions))
      ≡ es
unfolding campaign_queue driver_call ◌>>=◌
campaign_queue-entries id w es h = ground arith

-- An assignment and the queue's first due row, over the same table.
module _ (db : Database) (now : ℕ) (rank : RecoverySession → ℕ) (r : RecoverySession)
    (n : IsNext db now r) (first : IsFirst r (candidates db now)) where
  abbrev rows : List RecoverySession
  rows = ordered rank (select (in_campaign r.campaign_id) db.sessions)

  -- What holds of every due row of the queue holds of the row that was picked.
  at_picked : (Q : RecoverySession → Type 0) → All (λ x. eligible_now now x ≡ true → Q x) rows → Q r
  at_picked Q a =
      All-find (λ x. in_campaign r.campaign_id x ≡ true → eligible_now now x ≡ true → Q x) r.id
        db.sessions r
        (select-All (in_campaign r.campaign_id) (λ x. eligible_now now x ≡ true → Q x) db.sessions
          (ordered-All rank _ (select (in_campaign r.campaign_id) db.sessions) a))
        n.found (ground (arith, eq_iff r.campaign_id r.campaign_id)) n.eligible

  late : (q : RecoverySession) → head (select (eligible_now now) rows) ≡ some q → sooner q r ≡ false
  unfolding candidates
  late q h =
      let wide = λ (s : RecoverySession). in_active_campaign db.campaigns s && eligible_now now s in
      let all = select-All wide (λ x. sooner x r ≡ false) db.sessions first in
      let (p, due) =
        All-head (eligible_now now)
          (λ x. (wide x ≡ true → sooner x r ≡ false) × (in_campaign r.campaign_id x ≡ true)) rows q
          (All-ordered rank _ (select (in_campaign r.campaign_id) db.sessions)
            (All-select _ (in_campaign r.campaign_id) db.sessions all))
          h in
      p.0 (
        rw
          (
            in_active_campaign-same db.campaigns r q
                (ground (arith, p.1, eq_iff q.campaign_id r.campaign_id)) n.campaign,
            due,
          )
          refl)

  -- The first due row of the queue ties with the row that was picked.
  first_due-tie :
      (q : RecoverySession) × (head (select (eligible_now now) rows) ≡ some q)
      × (q.next_eligible_at ≡ r.next_eligible_at)
      × (q.created_at ≡ r.created_at)
  first_due-tie = elim (Option-cases (head (select (eligible_now now) rows))) [
    | inl h ↦ absurd (at_picked (λ x. ⊥) (none-All (eligible_now now) rows h))
    | inr (q, h) ↦
        let early : sooner r q ≡ false =
          at_picked (λ x. sooner x q ≡ false)
            (head-All (eligible_now now) rows q (ordered-Sorted rank _) h) in
        let (same_time, same_creation) = sooner_tie q r (late q h) early in
        (q, h, same_time, same_creation)
  ]

-- The queue view agrees with the assigner: if an assignment hands out a session, then the queue view
-- of its campaign, shown just before on the same database and in the same second, has as its first
-- entry that is due a row with the same next_eligible_at and the same created_at as the row that was
-- handed out had before the claim. So it is that row, unless rows tie in both columns, where each of
-- the two queries may take its own. The ids of the table are distinct.
pub campaign_queue-assign_next_pending :
    (call : String) (w v : World) (s : RecoverySession) (es : List QueueEntry)
    → Keyed w.sessions
    → v.db ≡ w.db
    → now_sql v ≡ now_sql w
    → (campaign_queue s.campaign_id v).0 ≡ ok es
    → (assign_next_pending call w).0 ≡ ok (some s)
    → (r : RecoverySession) × (q : RecoverySession) × (s ≡ called_row call (now_sql w) r)
      × (first_due es ≡ some q)
      × (q.next_eligible_at ≡ r.next_eligible_at)
      × (q.created_at ≡ r.created_at)
campaign_queue-assign_next_pending call w v s es k d c q h =
    let p = assign_next_pending-Picked call w s k h in
    let named : s.campaign_id ≡ p.row.campaign_id =
      ap (λ (x : RecoverySession). x.campaign_id) p.handed_out in
    let n : IsNext v.db (now_sql v) p.row = rw (d, c) p.next in
    let (t, listed, same_time, same_creation) =
      first_due-tie v.db (now_sql v) (ranked queue_view v) p.row n (rw (d, c) p.first) in
    let shown =
      ap first_due (sym (campaign_queue-entries p.row.campaign_id v es (rw named at q)))
      ∙ first_due-entries (now_sql v) _
      ∙ listed in
    (p.row, t, p.handed_out, shown, same_time, same_creation)
