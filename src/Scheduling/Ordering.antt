-- ===== src/Scheduling/Ordering.antt =====
-- The order of the queue: what its first row of a kind is.
use vasuli.Prelude.{
  ℕ, ◌≡◌, refl, subst, inl, inr, Bool, true, false, Bool-cases, Option, none, some, List, [], ◌∷◌,
  All, select, arith,
}
use vasuli.Store.Tables.{RecoverySession}
use vasuli.Store.Rows.{sooner, before, insert_ordered, ordered}
use vasuli.Scheduling.Choice.{IsFirst, IsFirst-trans, before-sooner, before-asym, sooner_irrefl}

abbrev pub Sorted : List RecoverySession → Type 0
Sorted [] = Unit
Sorted (r ∷ rs) = IsFirst r rs × Sorted rs

abbrev pub head : List RecoverySession → Option RecoverySession
head [] = none
head (r ∷ rs) = some r

-- Two rows that neither comes before agree in both columns.
pub sooner_tie :
    (a b : RecoverySession)
    → sooner a b ≡ false
    → sooner b a ≡ false
    → (a.next_eligible_at ≡ b.next_eligible_at) × (a.created_at ≡ b.created_at)
sooner_tie a b h k = by_times a.next_eligible_at b.next_eligible_at refl refl
  where
    by_times :
        (s t : Option ℕ)
        → a.next_eligible_at ≡ s
        → b.next_eligible_at ≡ t
        → (a.next_eligible_at ≡ b.next_eligible_at) × (a.created_at ≡ b.created_at)
    by_times s t e f = ground (arith, h, k, e, f)

module _ (rank : RecoverySession → ℕ) (Q : RecoverySession → Type 0) where
  All-insert :
      (r : RecoverySession) (rs : List RecoverySession)
      → Q r
      → All Q rs
      → All Q (insert_ordered rank r rs)
  unfolding insert_ordered
  All-insert r [] q a = (q, tt)
  All-insert r (s ∷ rs) q a = elim (Bool-cases (before rank s r)) [
    | inl t ↦ rw t (a.0, All-insert r rs q a.1)
    | inr f ↦ rw f (q, a)
  ]

  insert-All :
      (r : RecoverySession) (rs : List RecoverySession)
      → All Q (insert_ordered rank r rs)
      → Q r × All Q rs
  unfolding insert_ordered
  insert-All r [] a = a
  insert-All r (s ∷ rs) a = elim (Bool-cases (before rank s r)) [
    | inl t ↦
        let b : Q s × All Q (insert_ordered rank r rs) = rw t at a in
        let (q, c) = insert-All r rs b.1 in (q, (b.0, c))
    | inr f ↦ rw f at a
  ]

  pub All-ordered : (rs : List RecoverySession) → All Q rs → All Q (ordered rank rs)
  unfolding ordered
  All-ordered [] a = tt
  All-ordered (r ∷ rs) a = All-insert r (ordered rank rs) a.0 (All-ordered rs a.1)

  pub ordered-All : (rs : List RecoverySession) → All Q (ordered rank rs) → All Q rs
  unfolding ordered
  ordered-All [] a = tt
  ordered-All (r ∷ rs) a = let (q, b) = insert-All r (ordered rank rs) a in (q, ordered-All rs b)

module _ (rank : RecoverySession → ℕ) where
  insert_ordered-Sorted :
      (r : RecoverySession) (rs : List RecoverySession)
      → Sorted rs
      → Sorted (insert_ordered rank r rs)
  unfolding insert_ordered
  insert_ordered-Sorted r [] s = (tt, tt)
  insert_ordered-Sorted r (x ∷ xs) s = elim (Bool-cases (before rank x r)) [
    | inl t ↦ rw t (
      All-insert rank (λ y. sooner y x ≡ false) r xs (before-asym rank x r t) s.0,
      insert_ordered-Sorted r xs s.1,
    )
    | inr f ↦
        let late : sooner x r ≡ false = before-sooner rank x r f in
        rw f ((late, IsFirst-trans r x xs late s.0), s)
  ]

  pub ordered-Sorted : (rs : List RecoverySession) → Sorted (ordered rank rs)
  unfolding ordered
  ordered-Sorted [] = tt
  ordered-Sorted (r ∷ rs) = insert_ordered-Sorted r (ordered rank rs) (ordered-Sorted rs)

module _ (test : RecoverySession → Bool) where
  -- A property of the chosen rows, as one of all rows.
  pub select-All :
      (Q : RecoverySession → Type 0) (rs : List RecoverySession)
      → All Q (select test rs)
      → All (λ r. test r ≡ true → Q r) rs
  select-All Q [] a = tt
  select-All Q (r ∷ rs) a = elim (Bool-cases (test r)) [
    | inl t ↦ let b : Q r × All Q (select test rs) = rw t at a in (λ e. b.0, select-All Q rs b.1)
    | inr f ↦ (λ e. absurd (cc), select-All Q rs (rw f at a))
  ]

  pub none-All :
      (rs : List RecoverySession) → head (select test rs) ≡ none → All (λ r. test r ≡ true → ⊥) rs
  none-All [] h = tt
  none-All (r ∷ rs) h = elim (Bool-cases (test r)) [
    | inl t ↦ absurd (cc (rw t at h))
    | inr f ↦ (λ e. cc, none-All rs (rw f at h))
  ]

  always :
      (q : RecoverySession) (rs : List RecoverySession)
      → IsFirst q rs
      → All (λ r. test r ≡ true → sooner r q ≡ false) rs
  always q [] a = tt
  always q (r ∷ rs) a = (λ e. a.0, always q rs a.1)

  -- In a sorted list no row of the kind comes before the first of the kind.
  pub head-All :
      (rs : List RecoverySession) (q : RecoverySession)
      → Sorted rs
      → head (select test rs) ≡ some q
      → All (λ r. test r ≡ true → sooner r q ≡ false) rs
  head-All [] q s h = tt
  head-All (r ∷ rs) q s h = elim (Bool-cases (test r)) [
    | inl t ↦
        let same : r ≡ q = cc (rw t at h) in
        subst (λ x. All (λ y. test y ≡ true → sooner y x ≡ false) (r ∷ rs)) same
          (λ e. sooner_irrefl r, always r rs s.0)
    | inr f ↦ (λ e. absurd (cc), head-All rs q s.1 (rw f at h))
  ]

  pub All-head :
      (Q : RecoverySession → Type 0) (rs : List RecoverySession) (q : RecoverySession)
      → All Q rs
      → head (select test rs) ≡ some q
      → Q q × (test q ≡ true)
  All-head Q [] q a h = absurd (cc)
  All-head Q (r ∷ rs) q a h = elim (Bool-cases (test r)) [
    | inl t ↦ let same : r ≡ q = cc (rw t at h) in rw (← same) (a.0, t)
    | inr f ↦ All-head Q rs q a.1 (rw f at h)
  ]
