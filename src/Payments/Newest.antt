-- ===== src/Payments/Newest.antt =====
-- GetMostRecentActiveCampaign finds an active campaign that none was created after.
use vasuli.Prelude.{
  ◌≤◌, ◌≡◌, refl, ap, ◌⊎◌, inl, inr, true, false, Bool-cases, Option-cases, some, none, List, [],
  ◌∷◌, ◌++◌, All, arith, ltb,
}
use vasuli.Store.Tables.{Campaign, CampaignStatus, running, completed, paused}
use vasuli.Store.Schedule.{is_running}
use vasuli.Store.Statements.{newest_running}

abbrev pub AllNotAfter : Campaign → List Campaign → Type 0
AllNotAfter c = All (λ d. (is_running d.status ≡ false) ⊎ (d.created_at ≤ c.created_at))

-- An active campaign of the table, and no active one was created after it.
pub record IsNewest (c : Campaign) (cs : List Campaign) : Type 0 where
  pub before : List Campaign
  pub after : List Campaign
  pub listed : cs ≡ before ++ c ∷ after
  pub running : c.status ≡ running
  pub latest : AllNotAfter c cs

is_running-running : (s : CampaignStatus) → is_running s ≡ true → s ≡ running
is_running-running running h = refl
is_running-running completed h = absurd (cc)
is_running-running paused h = absurd (cc)

none-AllNotAfter : (cs : List Campaign) (c : Campaign) → newest_running cs ≡ none → AllNotAfter c cs
unfolding newest_running
none-AllNotAfter [] c e = tt
none-AllNotAfter (x ∷ xs) c e = elim (Bool-cases (is_running x.status)) [
  | inl t ↦ elim (Option-cases (newest_running xs)) [
    | inl n ↦ absurd (cc (rw (t, n) at e))
    | inr (d, f) ↦ elim (Bool-cases (ltb x.created_at d.created_at)) [
      | inl l ↦ absurd (cc (rw (t, f, l) at e))
      | inr l ↦ absurd (cc (rw (t, f, l) at e))
    ]
  ]
  | inr f ↦ (inl f, none-AllNotAfter xs c (rw f at e))
]

AllNotAfter-trans :
    (c d : Campaign) (cs : List Campaign)
    → c.created_at ≤ d.created_at
    → AllNotAfter c cs
    → AllNotAfter d cs
AllNotAfter-trans c d [] h a = tt
AllNotAfter-trans c d (x ∷ xs) h a =
    (elim a.0 [ inl n ↦ inl n | inr l ↦ inr (omega (arith, h, l)) ], AllNotAfter-trans c d xs h a.1)

first-IsNewest :
    (x : Campaign) (xs : List Campaign)
    → is_running x.status ≡ true
    → AllNotAfter x xs
    → IsNewest x (x ∷ xs)
first-IsNewest x xs t a = record {
  before = [];
  after = xs;
  listed = refl;
  running = is_running-running x.status t;
  latest = (inr (omega arith), a);
}

later-IsNewest :
    (x c : Campaign) (xs : List Campaign)
    → (is_running x.status ≡ false) ⊎ (x.created_at ≤ c.created_at)
    → IsNewest c xs
    → IsNewest c (x ∷ xs)
later-IsNewest x c xs h n = record {
  before = x ∷ n.before;
  after = n.after;
  listed = ap (λ ys. x ∷ ys) n.listed;
  running = n.running;
  latest = (h, n.latest);
}

pub newest_running-IsNewest :
    (cs : List Campaign) (c : Campaign) → newest_running cs ≡ some c → IsNewest c cs
unfolding newest_running
newest_running-IsNewest [] c e = absurd (cc)
newest_running-IsNewest (x ∷ xs) c e = elim (Bool-cases (is_running x.status)) [
  | inr f ↦ later-IsNewest x c xs (inl f) (newest_running-IsNewest xs c (rw f at e))
  | inl t ↦ elim (Option-cases (newest_running xs)) [
    | inl n ↦
        let same : x ≡ c = cc (rw (t, n) at e) in
        rw (← same) (first-IsNewest x xs t (none-AllNotAfter xs x n))
    | inr (d, f) ↦ elim (Bool-cases (ltb x.created_at d.created_at)) [
      | inl l ↦
          let same : d ≡ c = cc (rw (t, f, l) at e) in
          rw (← same)
            (later-IsNewest x d xs (inr (ground (arith, l))) (newest_running-IsNewest xs d f))
      | inr l ↦
          let same : x ≡ c = cc (rw (t, f, l) at e) in
          let n = newest_running-IsNewest xs d f in
          rw (← same)
            (first-IsNewest x xs t (AllNotAfter-trans d x xs (ground (arith, l)) n.latest))
    ]
  ]
]
