-- ===== src/Scheduling/Totals.antt =====
-- The numbers that CampaignMetrics reports fit together.
use vasuli.Prelude.{
  ℕ, String, ◌≡◌, refl, Bool, true, false, not, List, [], ◌∷◌, arith, select, count, ◌+◌,
}
use vasuli.Exec.{ok, gets, ◌>>=◌}
use vasuli.World.{World, driver_call}
use vasuli.World.Inversion.{call-AfterCall}
use vasuli.Store.Tables.{
  Status, active, link_sent, RecoverySession, pending, recovered, promised, refused, unclear,
  failed,
}
use vasuli.Store.Outcome.{Status-discrete}
use vasuli.Store.Reports.{
  Metrics, has_status, in_campaign, metrics_of, amounts_fit, check_sums, campaign_metrics,
}

abbrev of_status : Status → List RecoverySession → ℕ
of_status s rs = count (has_status s) rs

-- One row counts for `total` and under exactly one of the statuses.
abbrev Partition : List RecoverySession → Type 0
Partition rs =
    (count (λ r. true) rs ≡ count (λ r. not (has_status pending r)) rs + of_status pending rs)
    × (count (λ r. not (has_status pending r)) rs
        ≡ of_status active rs
          + of_status link_sent rs
          + of_status promised rs
          + of_status refused rs
          + of_status unclear rs
          + of_status recovered rs
          + of_status failed rs)

Partition-cons :
    (r : RecoverySession) (rs : List RecoverySession) (s : Status)
    → r.status ≡ s
    → Partition rs
    → Partition (r ∷ rs)
unfolding Status-discrete
Partition-cons r rs pending e p = rw e (omega (arith, p.0), omega (arith, p.1))
Partition-cons r rs active e p = rw e (omega (arith, p.0), omega (arith, p.1))
Partition-cons r rs link_sent e p = rw e (omega (arith, p.0), omega (arith, p.1))
Partition-cons r rs promised e p = rw e (omega (arith, p.0), omega (arith, p.1))
Partition-cons r rs refused e p = rw e (omega (arith, p.0), omega (arith, p.1))
Partition-cons r rs unclear e p = rw e (omega (arith, p.0), omega (arith, p.1))
Partition-cons r rs recovered e p = rw e (omega (arith, p.0), omega (arith, p.1))
Partition-cons r rs failed e p = rw e (omega (arith, p.0), omega (arith, p.1))

every-Partition : (rs : List RecoverySession) → Partition rs
every-Partition [] = (refl, refl)
every-Partition (r ∷ rs) = Partition-cons r rs r.status refl (every-Partition rs)

checked-of :
    (id : String) (fit : Bool) (w : World) (m : Metrics)
    → ((check_sums fit >>= λ _. driver_call "store: campaign metrics captured count" >>= λ _.
          gets (λ t. metrics_of id t.db))
        w).0
      ≡ ok m
    → metrics_of id w.db ≡ m
unfolding driver_call ◌>>=◌
checked-of id true w m h = ground arith
checked-of id false w m h = absurd (cc)

campaign_metrics-of :
    (id : String) (w : World) (m : Metrics)
    → (campaign_metrics id w).0 ≡ ok m
    → metrics_of id w.db ≡ m
unfolding campaign_metrics ◌>>=◌
campaign_metrics-of id w m h =
    let a = call-AfterCall "store: campaign metrics" _ m w h in
    let u : World = record w { faults = a.faults } in
    let run : campaign_metrics id w
        ≡ (check_sums (amounts_fit id w.db) >>= λ _.
              driver_call "store: campaign metrics captured count" >>= λ _.
              gets (λ t. metrics_of id t.db))
            u =
      a.step in
    checked-of id (amounts_fit id w.db) u m (rw run at h)

-- A campaign's rows with this status.
abbrev pub rows_with : Status → String → World → ℕ
rows_with s id w = of_status s (select (in_campaign id) w.sessions)

-- The numbers of CampaignMetrics account for every session of the campaign: each is contacted or
-- pending, and each contacted one is recovered, promised, refused, unclear, stopped after the last
-- attempt, or one of those that no other number shows: in a call, or with a link sent.
pub campaign_metrics_total :
    (id : String) (w : World) (m : Metrics)
    → (campaign_metrics id w).0 ≡ ok m
    → (m.total_accounts ≡ m.contacted + m.pending_count)
      × (m.contacted
          ≡ rows_with active id w
            + rows_with link_sent id w
            + m.promised_count
            + m.refused_count
            + m.unclear_count
            + m.recovered_count
            + m.stopped_max_attempts)
unfolding metrics_of
campaign_metrics_total id w m h =
    rw (← campaign_metrics-of id w m h) (every-Partition (select (in_campaign id) w.sessions))
