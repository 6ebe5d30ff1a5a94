-- ===== src/Lookup.antt =====
-- Lookups of one session in store/db.go: what a lookup that succeeded has read, and lookups after an
-- UPDATE by primary key.
use vasuli.Prelude.{
  String, ◌≡◌, ◌≢◌, refl, subst, inl, inr, true, Bool-cases, Option, none, some, List, [], ◌∷◌,
  arith, eq_iff, str_eq,
}
use vasuli.Exec.{ok, ◌>>=◌}
use vasuli.World.{World, driver_call}
use vasuli.Store.Tables.{RecoverySession}
use vasuli.Store.Rows.{find, find_by, update, equals}
use vasuli.Store.Statements.{get_session_by}
use vasuli.Lifecycle.Tables.{Keyed}

-- A lookup that succeeded.
pub record Looked (column : RecoverySession → Option String) (value : String) (w : World)
    (o : Option RecoverySession) (t : World) : Type 0 where
  pub faults : List (Option String)
  pub found : find_by column value w.sessions ≡ o
  pub state : t ≡ record w { faults = faults }

pub get_session_by-Looked :
    (column : RecoverySession → Option String) (value : String) (w : World)
    (o : Option RecoverySession) (t : World)
    → get_session_by column value w ≡ (ok o, t)
    → Looked column value w o t
unfolding get_session_by driver_call ◌>>=◌
get_session_by-Looked column value w o t h = with_faults w.faults h
  where
    with_faults :
        (fs : List (Option String))
        → get_session_by column value (record w { faults = fs }) ≡ (ok o, t)
        → Looked column value w o t
    with_faults [] k = record { faults = []; found = cc; state = cc }
    with_faults (none ∷ fs) k = record { faults = fs; found = cc; state = cc }
    with_faults (some cause ∷ fs) k = absurd (cc)

pub find-update_self :
    (id : String) (change : RecoverySession → RecoverySession) (rs : List RecoverySession)
    (r : RecoverySession)
    → find id rs ≡ some r
    → (change r).id ≡ r.id
    → find id (update id change rs) ≡ some (change r)
unfolding find update
find-update_self id change [] r e k = cc
find-update_self id change (x ∷ rs) r e k = elim (Bool-cases (str_eq x.id id)) [
  | inl hit ↦ let same : x ≡ r = cc (rw hit at e) in rw (hit, same) (rw k (rw (← same) (rw hit)))
  | inr miss ↦ rw miss (rw miss (find-update_self id change rs r (rw miss at e) k))
]

find_by-found :
    (column : RecoverySession → Option String) (value : String) (rs : List RecoverySession)
    (r : RecoverySession)
    → find_by column value rs ≡ some r
    → find r.id rs ≢ none
unfolding find_by find
find_by-found column value [] r f n = cc
find_by-found column value (x ∷ xs) r f n = elim (Bool-cases (equals value (column x))) [
  | inl t ↦ let same : x ≡ r = cc (rw t at f) in ground (arith, n, same, eq_iff x.id r.id)
  | inr m ↦ elim (Bool-cases (str_eq x.id r.id)) [
    | inl hit ↦ cc (rw hit at n)
    | inr miss ↦ find_by-found column value xs r (rw m at f) (rw miss at n)
  ]
]

pub find_by-update :
    (column : RecoverySession → Option String) (value : String)
    (change : RecoverySession → RecoverySession) (rs : List RecoverySession) (r : RecoverySession)
    → Keyed rs
    → find_by column value rs ≡ some r
    → column (change r) ≡ column r
    → find_by column value (update r.id change rs) ≡ some (change r)
unfolding find_by update
find_by-update column value change [] r k f e = absurd (cc)
find_by-update column value change (x ∷ xs) r k f e = elim (Bool-cases (equals value (column x))) [
  | inl t ↦
      let same : x ≡ r = cc (rw t at f) in
      let hit : str_eq x.id r.id ≡ true = ground (arith, same, eq_iff x.id r.id) in
      rw (hit, same) (rw (e, ← same) (rw t refl))
  | inr m ↦ elim (Bool-cases (str_eq x.id r.id)) [
    | inl hit ↦ absurd (
        find_by-found column value xs r (rw m at f)
          (subst (λ i. find i xs ≡ none) (ground (arith, hit, eq_iff x.id r.id)) k.0))
    | inr miss ↦ rw miss (rw m (find_by-update column value change xs r k.1 (rw m at f) e))
  ]
]

-- In a keyed table, a row found by a column is the one that its id finds.
pub find_by-find :
    (column : RecoverySession → Option String) (value : String) (rs : List RecoverySession)
    (r : RecoverySession)
    → Keyed rs
    → find_by column value rs ≡ some r
    → find r.id rs ≡ some r
unfolding find_by find
find_by-find column value [] r k f = absurd (cc)
find_by-find column value (x ∷ xs) r k f = elim (Bool-cases (equals value (column x))) [
  | inl t ↦
      let same : x ≡ r = cc (rw t at f) in
      let hit : str_eq x.id r.id ≡ true = ground (arith, same, eq_iff x.id r.id) in
      rw (hit, same) refl
  | inr m ↦ elim (Bool-cases (str_eq x.id r.id)) [
    | inl hit ↦ absurd (
        find_by-found column value xs r (rw m at f)
          (subst (λ i. find i xs ≡ none) (ground (arith, hit, eq_iff x.id r.id)) k.0))
    | inr miss ↦ rw miss (find_by-find column value xs r k.1 (rw m at f))
  ]
]
