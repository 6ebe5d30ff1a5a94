-- ===== src/Store/Rows.antt =====
-- The parts of the statements of store/db.go that act on the rows of `recovery_sessions`: access by
-- primary key, the unique indexes, and the order of the assignment query.
use vasuli.Prelude.{
  ℕ, suc, String, Bool, false, not, ◌&&◌, ◌||◌, Option, none, some, List, [], ◌∷◌, ltb, str_eq,
  if◌then◌else◌, ◌==◌,
}
use vasuli.Store.Tables.{RecoverySession, text_rank}

-- `WHERE id = ?`: `id` is the primary key, so the first hit is the only one.
unfoldable pub find : String → List RecoverySession → Option RecoverySession
find id [] = none
find id (r ∷ rs) = if str_eq r.id id then some r else find id rs

-- `UPDATE recovery_sessions SET … WHERE id = ?`.
unfoldable pub update :
    String → (RecoverySession → RecoverySession) → List RecoverySession → List RecoverySession
update id change [] = []
update id change (r ∷ rs) = if str_eq r.id id then change r ∷ rs else r ∷ update id change rs

abbrev pub equals : String → Option String → Bool
equals value none = false
equals value (some held) = str_eq held value

-- `WHERE column = ?`, which no NULL satisfies.
unfoldable pub find_by :
    (RecoverySession → Option String) → String → List RecoverySession → Option RecoverySession
find_by column value [] = none
find_by column value (r ∷ rs) = if equals value (column r) then some r else find_by column value rs

-- A row other than `self` already has this value in the column of a unique index.
unfoldable pub taken_by_other :
    (RecoverySession → Option String) → String → String → List RecoverySession → Bool
taken_by_other column self value [] = false
taken_by_other column self value (r ∷ rs) =
    (not (str_eq r.id self) && equals value (column r)) || taken_by_other column self value rs

-- Ascending order of the texts, with NULL first.
abbrev pub sort_key : Option ℕ → Bool → ℕ
sort_key none zoned = 0
sort_key (some t) zoned = suc (text_rank t zoned)

-- `ORDER BY next_eligible_at ASC, created_at ASC`: `a` comes strictly before `b`.
abbrev pub sooner : RecoverySession → RecoverySession → Bool
sooner a b =
    ltb (sort_key a.next_eligible_at a.zoned) (sort_key b.next_eligible_at b.zoned)
    || (sort_key a.next_eligible_at a.zoned == sort_key b.next_eligible_at b.zoned
        && ltb a.created_at b.created_at)

-- Rows that tie in both columns come in an order of SQLite's own, given by a rank.
abbrev pub before : (RecoverySession → ℕ) → RecoverySession → RecoverySession → Bool
before rank a b = sooner a b || (not (sooner b a) && ltb (rank a) (rank b))

abbrev pub prefer :
    (RecoverySession → ℕ) → RecoverySession → Option RecoverySession → RecoverySession
prefer rank r none = r
prefer rank r (some s) = if before rank s r then s else r

-- `… LIMIT 1`.
unfoldable pub soonest : (RecoverySession → ℕ) → List RecoverySession → Option RecoverySession
soonest rank [] = none
soonest rank (r ∷ rs) = some (prefer rank r (soonest rank rs))

-- The whole order, for the queue view.
unfoldable pub insert_ordered :
    (RecoverySession → ℕ) → RecoverySession → List RecoverySession → List RecoverySession
insert_ordered rank r [] = r ∷ []
insert_ordered rank r (s ∷ rs) =
    if before rank s r then s ∷ insert_ordered rank r rs else r ∷ s ∷ rs

unfoldable pub ordered : (RecoverySession → ℕ) → List RecoverySession → List RecoverySession
unfolding insert_ordered
ordered rank [] = []
ordered rank (r ∷ rs) = insert_ordered rank r (ordered rank rs)
