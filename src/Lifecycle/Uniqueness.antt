-- ===== src/Lifecycle/Uniqueness.antt =====
-- An UPDATE or INSERT that passed the test of a unique index keeps the values of its column apart.
use vasuli.Prelude.{
  String, ◌≡◌, refl, sym, subst, ◌⊎◌, inl, inr, Bool, true, false, Bool-cases, not, ◌||◌, ◌&&◌,
  Option, none, some, List, [], ◌∷◌, ◌++◌, arith, str_eq, eq_iff,
}
use vasuli.Store.Tables.{RecoverySession}
use vasuli.Store.Rows.{find, update, equals, taken_by_other}
use vasuli.Store.Statements.{some_taken}
use vasuli.Store.Shared.{held, shared}
use vasuli.Lifecycle.Tables.{Keyed}

pub both_false : (a b : Bool) → (a || b) ≡ false → (a ≡ false) × (b ≡ false)
both_false a b h = ground arith

either_false : (a b : Bool) → a ≡ false → b ≡ false → (a || b) ≡ false
either_false a b h g = ground arith

module _ (column : RecoverySession → Option String) where
  -- No other row has the id, so that a value that no other row holds is held by none.
  held-taken :
      (id : String) (o : Option String) (rs : List RecoverySession)
      → find id rs ≡ none
      → some_taken column id o rs ≡ false
      → held column o rs ≡ false
  unfolding find taken_by_other held
  held-taken id none rs f t = refl
  held-taken id (some v) [] f t = refl
  held-taken id (some v) (r ∷ rs) f t = elim (Bool-cases (str_eq r.id id)) [
    | inl hit ↦ absurd (cc (rw hit at f))
    | inr miss ↦
        let (mine, others) =
          both_false (not (str_eq r.id id) && equals v (column r)) (taken_by_other column id v rs)
            t in
        either_false _ _ (rw miss at mine) (held-taken id (some v) rs (rw miss at f) others)
  ]

  held-append :
      (o : Option String) (r : RecoverySession) (rs : List RecoverySession)
      → held column o rs ≡ false
      → held column o (r ∷ []) ≡ false
      → held column o (rs ++ r ∷ []) ≡ false
  unfolding held
  held-append none r rs h g = refl
  held-append (some v) r [] h g = g
  held-append (some v) r (s ∷ rs) h g =
      let (mine, others) = both_false _ _ h in
      either_false _ _ mine (held-append (some v) r rs others g)

  swap-values :
      (r s : RecoverySession) (x y : Option String)
      → column r ≡ x
      → column s ≡ y
      → held column x (s ∷ []) ≡ false
      → held column y (r ∷ []) ≡ false
  unfolding held
  swap-values r s none none e f h = refl
  swap-values r s none (some b) e f h = rw e refl
  swap-values r s (some a) none e f h = refl
  swap-values r s (some a) (some b) e f h =
      rw e (ground (arith, (rw f at h), eq_iff a b, eq_iff b a))

  -- Two rows hold the same value, or do not, whichever is asked.
  held-swap :
      (r s : RecoverySession)
      → held column (column r) (s ∷ []) ≡ false
      → held column (column s) (r ∷ []) ≡ false
  held-swap r s h = swap-values r s (column r) (column s) refl refl h

  head-rest :
      (o : Option String) (s : RecoverySession) (rs : List RecoverySession)
      → held column o (s ∷ rs) ≡ false
      → (held column o (s ∷ []) ≡ false) × (held column o rs ≡ false)
  unfolding held
  head-rest none s rs h = (refl, refl)
  head-rest (some v) s rs h =
      let (mine, others) = both_false _ _ h in (either_false _ _ mine refl, others)

  join :
      (o : Option String) (s : RecoverySession) (rs : List RecoverySession)
      → held column o (s ∷ []) ≡ false
      → held column o rs ≡ false
      → held column o (s ∷ rs) ≡ false
  unfolding held
  join none s rs h g = refl
  join (some v) s rs h g = either_false _ _ (both_false _ _ h).0 g

  held-same :
      (o : Option String) (r s : RecoverySession)
      → column s ≡ column r
      → held column o (r ∷ []) ≡ false
      → held column o (s ∷ []) ≡ false
  unfolding held
  held-same none r s e h = refl
  held-same (some v) r s e h = rw e h

  pub shared-append :
      (r : RecoverySession) (rs : List RecoverySession)
      → shared column rs ≡ false
      → held column (column r) rs ≡ false
      → shared column (rs ++ r ∷ []) ≡ false
  unfolding shared
  shared-append r [] h g = either_false _ _ g refl
  shared-append r (s ∷ rs) h g =
      let (apart, rest) = both_false _ _ h in
      let (mine, others) = head-rest (column r) s rs g in
      either_false _ _ (held-append (column s) r rs apart (held-swap r s mine))
        (shared-append r rs rest others)

  -- An UPDATE of one row may leave its value, drop it, or set one that no other row holds.
  abbrev pub Fits : String → (RecoverySession → RecoverySession) → List RecoverySession → Type 0
  Fits id change rs =
      (r : RecoverySession)
      → find id rs ≡ some r
      → (column (change r) ≡ column r) ⊎ (some_taken column id (column (change r)) rs ≡ false)

  taken-rest :
      (id : String) (o : Option String) (r : RecoverySession) (rs : List RecoverySession)
      → some_taken column id o (r ∷ rs) ≡ false
      → some_taken column id o rs ≡ false
  unfolding taken_by_other
  taken-rest id none r rs t = refl
  taken-rest id (some v) r rs t = (both_false _ _ t).1

  Fits-rest :
      (id : String) (change : RecoverySession → RecoverySession) (r : RecoverySession)
      (rs : List RecoverySession)
      → str_eq r.id id ≡ false
      → Fits id change (r ∷ rs)
      → Fits id change rs
  unfolding find
  Fits-rest id change r rs miss h s f = elim (h s (rw miss f)) [
    | inl e ↦ inl e
    | inr t ↦ inr (taken-rest id _ r rs t)
  ]

  -- What is apart from a row stays so under an UPDATE of another.
  apart-update :
      (id : String) (change : RecoverySession → RecoverySession) (r : RecoverySession)
      (rs : List RecoverySession)
      → held column (column r) rs ≡ false
      → ((x : RecoverySession)
          → find id rs ≡ some x
          → (column (change x) ≡ column x) ⊎ (held column (column (change x)) (r ∷ []) ≡ false))
      → held column (column r) (update id change rs) ≡ false
  unfolding find update
  apart-update id change r [] h g = h
  apart-update id change r (x ∷ rs) h g =
      let (mine, others) = head-rest (column r) x rs h in
      elim (Bool-cases (str_eq x.id id)) [
        | inl hit ↦
            let first : held column (column r) (change x ∷ []) ≡ false = elim (g x (rw hit refl)) [
              | inl e ↦ held-same (column r) x (change x) e mine
              | inr t ↦ held-swap (change x) r t
            ] in
            rw hit (join (column r) (change x) rs first others)
        | inr miss ↦
            rw miss (
              join (column r) x _ mine
                (apart-update id change r rs others (λ y f. g y (rw miss f))))
      ]

  head-taken :
      (id : String) (o : Option String) (r : RecoverySession) (rs : List RecoverySession)
      → str_eq r.id id ≡ false
      → some_taken column id o (r ∷ rs) ≡ false
      → held column o (r ∷ []) ≡ false
  unfolding taken_by_other held
  head-taken id none r rs miss t = refl
  head-taken id (some v) r rs miss t =
      let (mine, others) =
        both_false (not (str_eq r.id id) && equals v (column r)) (taken_by_other column id v rs)
          t in
      either_false _ _ (rw miss at mine) refl

  pub shared-update :
      (id : String) (change : RecoverySession → RecoverySession) (rs : List RecoverySession)
      → Keyed rs
      → Fits id change rs
      → shared column rs ≡ false
      → shared column (update id change rs) ≡ false
  unfolding shared find update
  shared-update id change [] k h s = s
  shared-update id change (r ∷ rs) k h s =
      let (apart, rest) = both_false _ _ s in
      elim (Bool-cases (str_eq r.id id)) [
        | inl hit ↦
            let first : held column (column (change r)) rs ≡ false = elim (h r (rw hit refl)) [
              | inl e ↦ subst (λ o. held column o rs ≡ false) (sym e) apart
              | inr t ↦
                  held-taken id _ rs (subst (λ i. find i rs ≡ none) ((eq_iff r.id id).0 hit) k.0)
                    (taken-rest id _ r rs t)
            ] in
            rw hit (either_false _ _ first rest)
        | inr miss ↦ rw miss (
            either_false _ _
              (apart-update id change r rs apart (λ x f. elim (h x (rw miss f)) [
                | inl e ↦ inl e
                | inr t ↦ inr (head-taken id _ r rs miss t)
              ]))
              (shared-update id change rs k.1 (Fits-rest id change r rs miss h) rest))
      ]

  -- The same where the index exists.
  pub indexed-append :
      (b : Bool) (r : RecoverySession) (rs : List RecoverySession)
      → find r.id rs ≡ none
      → (b && some_taken column r.id (column r) rs) ≡ false
      → (b && shared column rs) ≡ false
      → (b && shared column (rs ++ r ∷ [])) ≡ false
  indexed-append false r rs f t s = refl
  indexed-append true r rs f t s = shared-append r rs s (held-taken r.id (column r) rs f t)

  pub indexed-update :
      (b : Bool) (id : String) (change : RecoverySession → RecoverySession)
      (rs : List RecoverySession)
      → Keyed rs
      → (b ≡ true → Fits id change rs)
      → (b && shared column rs) ≡ false
      → (b && shared column (update id change rs)) ≡ false
  indexed-update false id change rs k h s = refl
  indexed-update true id change rs k h s = shared-update id change rs k (h refl) s

  pub untaken :
      (b : Bool) (id : String) (o : Option String) (rs : List RecoverySession)
      → o ≡ none
      → (b && some_taken column id o rs) ≡ false
  untaken b id o rs e = rw e (ground arith)
