-- ===== src/Scheduling/Choice.antt =====
-- AssignNextPending claims the session that has waited longest among those that may be called.
use vasuli.Prelude.{
  ℕ, ◌+◌, String, ◌≡◌, refl, subst, ap, ◌∙◌, inl, inr, true, false, Bool-cases, Option, none, some,
  List, [], ◌∷◌, All, arith,
}
use vasuli.Exec.{Result, ok, ◌>>=◌}
use vasuli.Exec.Inversion.{bind-Between}
use vasuli.World.{World, assignment, ranked, driver_call, transaction}
use vasuli.World.Inversion.{call-AfterCall, transaction-ok}
use vasuli.Store.Tables.{active, RecoverySession}
use vasuli.Store.Rows.{find, update, soonest, sooner, before, prefer}
use vasuli.Store.Schedule.{candidates}
use vasuli.Store.Statements.{now_sql, get_session_by_id}
use vasuli.Store.Assign.{
  claim, bind_session, bind_found, claim_next, read_claimed, assign_next_pending,
}
use vasuli.Lookup.{find-update_self}
use vasuli.Lifecycle.Tables.{Keyed}
use vasuli.Lifecycle.Assign.{IsNext, soonest-IsNext}

-- No row of the list comes strictly before this one.
abbrev pub IsFirst : RecoverySession → List RecoverySession → Type 0
IsFirst r = All (λ t. sooner t r ≡ false)

pub sooner_trans :
    (a b c : RecoverySession) → sooner b a ≡ false → sooner c b ≡ false → sooner c a ≡ false
sooner_trans a b c h k = ground arith

pub sooner_asym : (a b : RecoverySession) → sooner a b ≡ true → sooner b a ≡ false
sooner_asym a b h = ground arith

pub sooner_irrefl : (a : RecoverySession) → sooner a a ≡ false
sooner_irrefl a = ground arith

pub IsFirst-trans :
    (r s : RecoverySession) (xs : List RecoverySession)
    → sooner s r ≡ false
    → IsFirst s xs
    → IsFirst r xs
IsFirst-trans r s [] h a = tt
IsFirst-trans r s (x ∷ xs) h a = (sooner_trans r s x h a.0, IsFirst-trans r s xs h a.1)

-- What the order of the query says of the two columns alone.
pub before-sooner :
    (rank : RecoverySession → ℕ) (a b : RecoverySession)
    → before rank a b ≡ false
    → sooner a b ≡ false
before-sooner rank a b h = ground (arith, h)

pub before-asym :
    (rank : RecoverySession → ℕ) (a b : RecoverySession)
    → before rank a b ≡ true
    → sooner b a ≡ false
before-asym rank a b h = elim (Bool-cases (sooner a b)) [
  | inl t ↦ sooner_asym a b t
  | inr f ↦ elim (Bool-cases (sooner b a)) [ inl t ↦ absurd (cc (rw (f, t) at h)) | inr g ↦ g ]
]

module _ (rank : RecoverySession → ℕ) where
  prefer-IsFirst :
      (x : RecoverySession) (xs : List RecoverySession) (o : Option RecoverySession)
      → soonest rank xs ≡ o
      → ((s : RecoverySession) → o ≡ some s → IsFirst s xs)
      → IsFirst (prefer rank x o) (x ∷ xs)
  unfolding soonest
  prefer-IsFirst x [] none e h = (sooner_irrefl x, tt)
  prefer-IsFirst x (y ∷ ys) none e h = absurd (cc)
  prefer-IsFirst x xs (some s) e h = elim (Bool-cases (before rank s x)) [
    | inl t ↦
        let won : s ≡ prefer rank x (some s) = rw t in
        subst (λ q. IsFirst q (x ∷ xs)) won (before-asym rank s x t, h s refl)
    | inr f ↦
        let kept : x ≡ prefer rank x (some s) = rw f in
        subst (λ q. IsFirst q (x ∷ xs)) kept
          (sooner_irrefl x, IsFirst-trans x s xs (before-sooner rank s x f) (h s refl))
  ]

  pub soonest-IsFirst :
      (xs : List RecoverySession) (r : RecoverySession) → soonest rank xs ≡ some r → IsFirst r xs
  unfolding soonest
  soonest-IsFirst [] r e = tt
  soonest-IsFirst (x ∷ xs) r e =
      let hit : prefer rank x (soonest rank xs) ≡ r = cc e in
      subst (λ q. IsFirst q (x ∷ xs)) hit
        (prefer-IsFirst x xs (soonest rank xs) refl (λ s f. soonest-IsFirst xs s f))

-- What a claim that succeeded has done to the state.
record Claimed (call : String) (r : RecoverySession) (w w' : World) : Type 0 where
  rows : w'.sessions ≡ update r.id (claim call (now_sql w)) w.sessions

bind_session-ok :
    (call : String) (r : RecoverySession) (w : World) (o : Option String)
    → (bind_session call r w).0 ≡ ok o
    → (o ≡ some r.id) × Claimed call r w (bind_session call r w).1
unfolding bind_session driver_call ◌>>=◌
bind_session-ok call r w o h = ground arith

-- The row of a session that is called: active, bound to the call, with one more contact attempt and the
-- call started now.
abbrev pub called_row : String → ℕ → RecoverySession → RecoverySession
called_row call now r = record r {
  status = active;
  call_session_id = some call;
  contact_attempts = r.contact_attempts + 1;
  call_started_at = some now;
}

-- An assignment that succeeded: the session picked, as it was before.
pub record Picked (call : String) (w w' : World) (s : RecoverySession) : Type 0 where
  pub row : RecoverySession
  pub next : IsNext w.db (now_sql w) row
  pub first : IsFirst row (candidates w.db (now_sql w))
  pub result : s ≡ claim call (now_sql w) row
  pub table : w'.sessions ≡ update row.id (claim call (now_sql w)) w.sessions
  pub handed_out : s ≡ called_row call (now_sql w) row
  pub written : w'.sessions ≡ update row.id (called_row call (now_sql w)) w.sessions

get_session_by_id-ok :
    (id : String) (w : World) (o : Option RecoverySession)
    → (get_session_by_id id w).0 ≡ ok o
    → (o ≡ find id w.sessions) × ((get_session_by_id id w).1.sessions ≡ w.sessions)
unfolding get_session_by_id driver_call ◌>>=◌
get_session_by_id-ok id w o h = ground arith

read-Picked :
    (call : String) (r : RecoverySession) (w w' : World) (s : RecoverySession)
    → IsNext w.db (now_sql w) r
    → soonest (ranked assignment w) (candidates w.db (now_sql w)) ≡ some r
    → Claimed call r w w'
    → (get_session_by_id r.id w').0 ≡ ok (some s)
    → Picked call w (get_session_by_id r.id w').1 s
unfolding claim
read-Picked call r w w' s n f c h =
    let (hit, same) = get_session_by_id-ok r.id w' (some s) h in
    let given : s ≡ claim call (now_sql w) r =
      cc (hit, c.rows, find-update_self r.id (claim call (now_sql w)) w.sessions r n.found refl) in
    record {
      row = r;
      next = n;
      first = soonest-IsFirst (ranked assignment w) _ r f;
      result = given;
      table = same ∙ c.rows;
      handed_out = given;
      written = same ∙ c.rows;
    }

bound-Picked :
    (call : String) (w : World) (o : Option RecoverySession) (c : Option String)
    (s : RecoverySession)
    → Keyed w.sessions
    → soonest (ranked assignment w) (candidates w.db (now_sql w)) ≡ o
    → (bind_found call o w).0 ≡ ok c
    → (read_claimed c (bind_found call o w).1).0 ≡ ok (some s)
    → Picked call w (read_claimed c (bind_found call o w).1).1 s
bound-Picked call w none none s k e b h = absurd (cc)
bound-Picked call w none (some id) s k e b h = absurd (cc)
bound-Picked call w (some r) c s k e b h =
    let (named, claimed) = bind_session-ok call r w c b in
    rw named (
      read-Picked call r w (bind_session call r w).1 s
        (soonest-IsNext (ranked assignment w) w.db (now_sql w) r k e) e claimed (rw named at h))

-- A driver call changes nothing that a pick depends on.
Picked-faults :
    (call : String) (w t w' : World) (s : RecoverySession) (f : List (Option String))
    → t ≡ record w { faults = f }
    → Picked call t w' s
    → Picked call w w' s
Picked-faults call w t w' s f e p =
    let q : Picked call (record w { faults = f }) w' s = subst (λ u. Picked call u w' s) e p in
    record {
      row = q.row;
      next = q.next;
      first = q.first;
      result = q.result;
      table = q.table;
      handed_out = q.handed_out;
      written = q.written;
    }

claim_next-Picked :
    (call : String) (w : World) (c : Option String) (s : RecoverySession)
    → Keyed w.sessions
    → (claim_next call w).0 ≡ ok c
    → (read_claimed c (claim_next call w).1).0 ≡ ok (some s)
    → Picked call w (read_claimed c (claim_next call w).1).1 s
unfolding claim_next ◌>>=◌
claim_next-Picked call w c s k b h =
    let a = call-AfterCall _ _ c w b in
    let t : World = record w { faults = a.faults } in
    let run : claim_next call w
        ≡ bind_found call (soonest (ranked assignment w) (candidates w.db (now_sql w))) t =
      a.step in
    rw run (
      Picked-faults call w t _ s a.faults refl
        (bound-Picked call t _ c s k refl (rw run at b) (rw run at h)))

claimed-Picked :
    (call : String) (w : World) (s : RecoverySession)
    → Keyed w.sessions
    → ((transaction (claim_next call) >>= read_claimed) w).0 ≡ ok (some s)
    → Picked call w ((transaction (claim_next call) >>= read_claimed) w).1 s
claimed-Picked call w s k h =
    let m = bind-Between (transaction (claim_next call)) read_claimed w (some s) h in
    let committed : (transaction (claim_next call) w).0 ≡ ok m.value =
      ap (λ (x : Result (Option String) × World). x.0) m.first in
    let body = transaction-ok (claim_next call) w m.value committed in
    let state : (claim_next call w).1 ≡ m.state =
      ap (λ (x : Result (Option String) × World). x.1) body
      ∙ ap (λ (x : Result (Option String) × World). x.1) m.first in
    rw (m.final, ← state)
      (claim_next-Picked call w m.value s k (ap (λ (x : Result (Option String) × World). x.0) body)
        (rw (← state) at m.rest))

-- An assignment that hands out a session has picked one that may be called now, in an active
-- campaign, and that no other such session precedes in the order of the time from which it may be
-- called, then of its creation. The session handed out is that row, claimed for this call: active,
-- bound to the call, with one more contact attempt, the call started now and everything else as
-- before; and no other row of the table has changed. The driver may fail at any call, and the ids of
-- the table are distinct.
pub assign_next_pending-Picked :
    (call : String) (w : World) (s : RecoverySession)
    → Keyed w.sessions
    → (assign_next_pending call w).0 ≡ ok (some s)
    → Picked call w (assign_next_pending call w).1 s
unfolding assign_next_pending
assign_next_pending-Picked call w s k h =
    let a = call-AfterCall _ _ (some s) w h in
    let t : World = record w { faults = a.faults } in
    let run : assign_next_pending call w ≡ (transaction (claim_next call) >>= read_claimed) t =
      a.step in
    rw run (Picked-faults call w t _ s a.faults refl (claimed-Picked call t s k (rw run at h)))
