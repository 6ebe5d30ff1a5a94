-- ===== src/Lifecycle/Tables.antt =====
-- Tables whose rows make the moves of `Moves` and that gain new rows.
use vasuli.Prelude.{
  ℕ, String, ◌≡◌, refl, sym, subst, Bool, true, false, Bool-cases, inl, inr, Option, none, some,
  List, [], ◌∷◌, ◌++◌, arith, str_eq, eq_iff, All, select,
}
use text.Mathlib.TextPositions.{eq_refl}
use vasuli.Store.Tables.{RecoverySession}
use vasuli.Store.Rows.{find, update, soonest, before, prefer}
use vasuli.Lifecycle.Moves.{RowMove, RowMoves, unmoved, later, RowMoves-trans, IsFresh}

-- A row that was inserted on the way.
pub record Grown (r : RecoverySession) : Type 0 where
  pub origin : RecoverySession
  pub fresh : IsFresh origin
  pub moves : RowMoves origin r

-- Every row of the first table has moved to the row at its place in the second; further rows of the
-- second are new.
abbrev pub Evolves : List RecoverySession → List RecoverySession → Type 0
Evolves [] rs' = All Grown rs'
Evolves (r ∷ rs) [] = ⊥
Evolves (r ∷ rs) (r' ∷ rs') = RowMoves r r' × Evolves rs rs'

pub Evolves-refl : (rs : List RecoverySession) → Evolves rs rs
Evolves-refl [] = tt
Evolves-refl (r ∷ rs) = (unmoved, Evolves-refl rs)

All-Grown-Evolves : (rs ss : List RecoverySession) → All Grown rs → Evolves rs ss → All Grown ss
All-Grown-Evolves [] ss g e = e
All-Grown-Evolves (r ∷ rs) [] g e = absurd e
All-Grown-Evolves (r ∷ rs) (s ∷ ss) g e = (
  record { origin = g.0.origin; fresh = g.0.fresh; moves = RowMoves-trans g.0.moves e.0 },
  All-Grown-Evolves rs ss g.1 e.1,
)

pub Evolves-trans :
    (rs ss ts : List RecoverySession) → Evolves rs ss → Evolves ss ts → Evolves rs ts
Evolves-trans [] ss ts e f = All-Grown-Evolves ss ts e f
Evolves-trans (r ∷ rs) [] ts e f = absurd e
Evolves-trans (r ∷ rs) (s ∷ ss) [] e f = absurd f
Evolves-trans (r ∷ rs) (s ∷ ss) (t ∷ ts) e f =
    (RowMoves-trans e.0 f.0, Evolves-trans rs ss ts e.1 f.1)

pub Evolves-append :
    (rs : List RecoverySession) (r : RecoverySession) → IsFresh r → Evolves rs (rs ++ r ∷ [])
Evolves-append [] r f = (record { origin = r; fresh = f; moves = unmoved }, tt)
Evolves-append (s ∷ rs) r f = (unmoved, Evolves-append rs r f)

-- The primary key: no two rows have one id.
abbrev pub Keyed : List RecoverySession → Type 0
Keyed [] = Unit
Keyed (r ∷ rs) = (find r.id rs ≡ none) × Keyed rs

-- An UPDATE by primary key moves the row that it hits, and no other.
pub Evolves-update :
    (id : String) (change : RecoverySession → RecoverySession) (rs : List RecoverySession)
    → ((r : RecoverySession) → find id rs ≡ some r → RowMove r (change r))
    → Evolves rs (update id change rs)
unfolding find update
Evolves-update id change [] h = tt
Evolves-update id change (r ∷ rs) h = elim (Bool-cases (str_eq r.id id)) [
  | inl hit ↦ rw hit (later unmoved (h r (rw hit)), Evolves-refl rs)
  | inr miss ↦ rw miss (unmoved, Evolves-update id change rs (λ s e. h s (rw miss e)))
]

find-update_ne :
    (id key : String) (change : RecoverySession → RecoverySession) (rs : List RecoverySession)
    → ((r : RecoverySession) → find key rs ≡ some r → (change r).id ≡ r.id)
    → find id rs ≡ none
    → find id (update key change rs) ≡ none
unfolding find update
find-update_ne id key change [] h e = refl
find-update_ne id key change (r ∷ rs) h e = elim (Bool-cases (str_eq r.id key)) [
  | inl hit ↦ rw hit (ground (arith, h r (rw hit)))
  | inr miss ↦ rw miss (ground (arith, find-update_ne id key change rs (λ s f. h s (rw miss f))))
]

abbrev KeepsId : String → (RecoverySession → RecoverySession) → List RecoverySession → Type 0
KeepsId id change rs = (r : RecoverySession) → find id rs ≡ some r → (change r).id ≡ r.id

pub Keyed-update :
    (id : String) (change : RecoverySession → RecoverySession) (rs : List RecoverySession)
    → KeepsId id change rs
    → Keyed rs
    → Keyed (update id change rs)
unfolding find update
Keyed-update id change [] h k = tt
Keyed-update id change (r ∷ rs) h k = elim (Bool-cases (str_eq r.id id)) [
  | inl hit ↦ rw hit (subst (λ i. find i rs ≡ none) (sym (h r (rw hit))) k.0, k.1)
  | inr miss ↦ rw miss (
    find-update_ne r.id id change rs (λ s e. h s (rw miss e)) k.0,
    Keyed-update id change rs (λ s e. h s (rw miss e)) k.1,
  )
]

find-append :
    (id : String) (rs : List RecoverySession) (r : RecoverySession)
    → find id rs ≡ none
    → str_eq r.id id ≡ false
    → find id (rs ++ r ∷ []) ≡ none
unfolding find
find-append id [] r e f = rw f
find-append id (s ∷ rs) r e f = ground (arith, find-append id rs r)

-- An INSERT whose id the table does not hold.
pub Keyed-append :
    (rs : List RecoverySession) (r : RecoverySession)
    → find r.id rs ≡ none
    → Keyed rs
    → Keyed (rs ++ r ∷ [])
unfolding find
Keyed-append [] r e k = (refl, tt)
Keyed-append (s ∷ rs) r e k = elim (Bool-cases (str_eq s.id r.id)) [
  | inl hit ↦ cc (rw hit at e)
  | inr miss ↦ (
    find-append s.id rs r k.0 (ground (arith, eq_iff s.id r.id, eq_iff r.id s.id)),
    Keyed-append rs r (rw miss at e) k.1,
  )
]

-- In a keyed table every row is found under its own id.
abbrev IsFound : List RecoverySession → RecoverySession → Type 0
IsFound rs r = find r.id rs ≡ some r

All-IsFound-cons :
    (rs xs : List RecoverySession) (r : RecoverySession)
    → find r.id rs ≡ none
    → All (IsFound rs) xs
    → All (IsFound (r ∷ rs)) xs
unfolding find
All-IsFound-cons rs [] r e a = tt
All-IsFound-cons rs (x ∷ xs) r e a =
    (ground (arith, eq_iff r.id x.id, a.0), All-IsFound-cons rs xs r e a.1)

pub Keyed-IsFound : (rs : List RecoverySession) → Keyed rs → All (IsFound rs) rs
unfolding find
Keyed-IsFound [] k = tt
Keyed-IsFound (r ∷ rs) k = (rw (eq_refl r.id), All-IsFound-cons rs rs r k.0 (Keyed-IsFound rs k.1))

pub All-select :
    (P : RecoverySession → Type 0) (test : RecoverySession → Bool) (rs : List RecoverySession)
    → All P rs
    → All (λ r. P r × (test r ≡ true)) (select test rs)
All-select P test [] a = tt
All-select P test (r ∷ rs) a = elim (Bool-cases (test r)) [
  | inl t ↦ rw t ((a.0, t), All-select P test rs a.1)
  | inr f ↦ rw f (All-select P test rs a.1)
]

module _ (rank : RecoverySession → ℕ) where
  prefer_cases :
      (P : RecoverySession → Type 0) (x : RecoverySession) (o : Option RecoverySession)
      → P x
      → ((s : RecoverySession) → o ≡ some s → P s)
      → P (prefer rank x o)
  prefer_cases P x none p h = p
  prefer_cases P x (some s) p h = elim (Bool-cases (before rank s x)) [
    | inl t ↦ rw t (h s refl)
    | inr f ↦ rw f p
  ]

  pub All-soonest :
      (P : RecoverySession → Type 0) (rs : List RecoverySession) (r : RecoverySession)
      → All P rs
      → soonest rank rs ≡ some r
      → P r
  unfolding soonest
  All-soonest P [] r a e = absurd (cc)
  All-soonest P (x ∷ rs) r a e =
      let hit : prefer rank x (soonest rank rs) ≡ r = cc e in
      subst P hit (prefer_cases P x (soonest rank rs) a.0 (λ s f. All-soonest P rs s a.1 f))
