-- ===== src/Api/QueueView.antt =====
-- The lists of the queue view of internal/api/handlers.go.
use vasuli.Prelude.{
  ℕ, suc, ◌+◌, String, ◌≡◌, refl, sym, ap, ◌∙◌, inl, inr, Bool, Bool-cases, Option, none, some,
  List, [], ◌∷◌, map, length, count, select, arith,
}
use vasuli.Exec.{Result, ok, err, ◌>>=◌}
use vasuli.World.{World, queue_view, ranked, driver_call}
use vasuli.Store.Tables.{Campaign, RecoverySession}
use vasuli.Store.Rows.{before, insert_ordered, ordered}
use vasuli.Store.Schedule.{Bucket, due_now, on_hold, closed}
use vasuli.Store.Statements.{now_sql, get_campaign}
use vasuli.Store.Reports.{QueueEntry, queue_entry, in_campaign, campaign_queue}
use vasuli.Scheduling.Queue.{campaign_queue-entries}
use vasuli.Api.Response.{QueueEntryResponse, queue_report, write_json}
use vasuli.Api.Views.{bucket_entries, queue_answer, queue_found, get_queue}

module _ (rank : RecoverySession → ℕ) where
  length-insert :
      (r : RecoverySession) (rs : List RecoverySession)
      → length (insert_ordered rank r rs) ≡ suc (length rs)
  unfolding insert_ordered
  length-insert r [] = refl
  length-insert r (s ∷ rs) = elim (Bool-cases (before rank s r)) [
    | inl t ↦ rw t (ap suc (length-insert r rs))
    | inr f ↦ rw f refl
  ]

  length-ordered : (rs : List RecoverySession) → length (ordered rank rs) ≡ length rs
  unfolding ordered
  length-ordered [] = refl
  length-ordered (r ∷ rs) = length-insert r (ordered rank rs) ∙ ap suc (length-ordered rs)

length-map : {A B : Type 0} (f : A → B) (xs : List A) → length (map f xs) ≡ length xs
length-map f [] = refl
length-map f (x ∷ xs) = ap suc (length-map f xs)

length-select :
    (test : RecoverySession → Bool) (rs : List RecoverySession)
    → length (select test rs) ≡ count test rs
length-select test [] = refl
length-select test (r ∷ rs) = ground (arith, length-select test rs)

abbrev shown : List QueueEntry → ℕ
shown es =
    length (bucket_entries due_now es)
    + length (bucket_entries on_hold es)
    + length (bucket_entries closed es)

shown-cons :
    (b : Bucket) (e : QueueEntry) (es : List QueueEntry)
    → e.bucket_of ≡ b
    → shown (e ∷ es) ≡ suc (shown es)
shown-cons due_now e es h = rw h (omega arith)
shown-cons on_hold e es h = rw h (omega arith)
shown-cons closed e es h = rw h (omega arith)

shown-length : (es : List QueueEntry) → shown es ≡ length es
shown-length [] = refl
shown-length (e ∷ es) = shown-cons e.bucket_of e es refl ∙ ap suc (shown-length es)

answer-total :
    (c c' : Campaign) (q : Result (List QueueEntry)) (a b d : List QueueEntryResponse)
    → queue_answer c q ≡ write_json 200 (queue_report c' a b d)
    → (es : List QueueEntry) × (q ≡ ok es) × (length a + length b + length d ≡ length es)
answer-total c c' (err e) a b d h = absurd (cc)
answer-total c c' (ok es) a b d h = (es, refl, cc (h, shown-length es))

get_campaign-sessions : (id : String) (w : World) → (get_campaign id w).1.sessions ≡ w.sessions
unfolding get_campaign driver_call ◌>>=◌
get_campaign-sessions id w = ground arith

found-total :
    (id : String) (r : Result (Option Campaign) × World) (c : Campaign)
    (a b d : List QueueEntryResponse)
    → (queue_found id r).0 ≡ write_json 200 (queue_report c a b d)
    → length a + length b + length d ≡ count (in_campaign id) r.1.sessions
found-total id (err e, t) c a b d h = absurd (cc)
found-total id (ok none, t) c a b d h = absurd (cc)
found-total id (ok (some c'), t) c a b d h =
    let (es, q, total) = answer-total c' c (campaign_queue id t).0 a b d h in
    let rows = select (in_campaign id) t.sessions in
    total
    ∙ sym (ap length (campaign_queue-entries id t es q))
    ∙ length-map (queue_entry (now_sql t)) (ordered (ranked queue_view t) rows)
    ∙ length-ordered (ranked queue_view t) rows
    ∙ length-select (in_campaign id) t.sessions

-- When the queue view is answered with success, its three lists have together as many entries as the
-- campaign has sessions.
pub get_queue-total :
    (id : String) (w : World) (c : Campaign) (a b d : List QueueEntryResponse)
    → (get_queue id w).0 ≡ write_json 200 (queue_report c a b d)
    → length a + length b + length d ≡ count (in_campaign id) w.sessions
unfolding get_queue
get_queue-total id w c a b d h =
    found-total id (get_campaign id w) c a b d h
    ∙ ap (count (in_campaign id)) (get_campaign-sessions id w)
