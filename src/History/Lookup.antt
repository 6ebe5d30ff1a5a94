-- ===== src/History/Lookup.antt =====
-- The lookups by a uniquely indexed column, after Open and any history.
use vasuli.Prelude.{
  String, ◌≡◌, refl, subst, inl, inr, true, false, Bool-cases, Option, none, some, List, [], ◌∷◌,
  arith, str_eq, eq_iff,
}
use text.Mathlib.TextPositions.{eq_refl}
use vasuli.World.{World, Client}
use vasuli.Platform.{Platform}
use vasuli.Store.Tables.{RecoverySession, Database}
use vasuli.Store.Rows.{find, find_by, equals}
use vasuli.Store.Shared.{held, shared, Indexed}
use vasuli.Store.Opening.{
  File, open_file, Column, call_session_id, razorpay_payment_id, razorpay_link_id, column_of,
  index_on,
}
use vasuli.Lifecycle.Tables.{Keyed}
use vasuli.Lifecycle.Uniqueness.{both_false}
use vasuli.History.{Request, run, run-Moves}
use vasuli.History.Unique.{open_file-Keeps}

module _ (column : RecoverySession → Option String) where
  held-find :
      (value id : String) (rs : List RecoverySession) (s : RecoverySession)
      → find id rs ≡ some s
      → column s ≡ some value
      → held column (some value) rs ≡ true
  unfolding find held
  held-find value id [] s f e = absurd (cc)
  held-find value id (r ∷ rs) s f e = elim (Bool-cases (str_eq r.id id)) [
    | inl hit ↦ let same : r ≡ s = cc (rw hit at f) in rw (same, e, eq_refl value) refl
    | inr miss ↦ rw (held-find value id rs s (rw miss at f) e) (ground arith)
  ]

  unequal :
      (value : String) (o : Option String) (rs : List RecoverySession)
      → held column o rs ≡ false
      → held column (some value) rs ≡ true
      → equals value o ≡ false
  unequal value none rs h g = refl
  unequal value (some x) rs h g = elim (Bool-cases (str_eq x value)) [
    | inl t ↦ absurd (cc (subst (λ v. held column (some v) rs ≡ false) ((eq_iff x value).0 t) h, g))
    | inr f ↦ f
  ]

  find_by-found :
      (value id : String) (rs : List RecoverySession) (s : RecoverySession)
      → shared column rs ≡ false
      → find id rs ≡ some s
      → column s ≡ some value
      → find_by column value rs ≡ some s
  unfolding find find_by shared
  find_by-found value id [] s u f e = absurd (cc)
  find_by-found value id (r ∷ rs) s u f e =
      let (apart, rest) = both_false (held column (column r) rs) (shared column rs) u in
      elim (Bool-cases (str_eq r.id id)) [
        | inl hit ↦ let same : r ≡ s = cc (rw hit at f) in rw (same, e, eq_refl value) refl
        | inr miss ↦
            let later = find_by-found value id rs s rest (rw miss at f) e in
            let other : equals value (column r) ≡ false =
              unequal value (column r) rs apart (held-find value id rs s (rw miss at f) e) in
            rw (other) later
      ]

Indexed-column :
    (c : Column) (d : Database)
    → Indexed d
    → index_on c d.indexes ≡ true
    → shared (column_of c) d.sessions ≡ false
Indexed-column call_session_id d x on = rw on at x.call
Indexed-column razorpay_payment_id d x on = rw on at x.payment
Indexed-column razorpay_link_id d x on = rw on at x.link

module _ (os : Platform) (client : Client) where
  -- Open, and then the requests.
  abbrev pub serve : File → List Request → World
  serve f requests = run os client (open_file f).1.world requests

  -- A lookup by call, payment or link finds the one session that holds the value: from any file, after
  -- Open (with its migration, and whatever it fails at) and any history of requests, if the unique
  -- index on the column exists, the lookup by a value that a session holds returns that session, so
  -- that an outcome or a payment can never be booked to another. The file's ids are distinct, and its
  -- existing indexes hold.
  pub serve-found :
      (f : File) (requests : List Request) (c : Column) (value : String) (s : RecoverySession)
      → Keyed f.world.sessions
      → Indexed f.world.db
      → index_on c (serve f requests).indexes ≡ true
      → find s.id (serve f requests).sessions ≡ some s
      → column_of c s ≡ some value
      → find_by (column_of c) value (serve f requests).sessions ≡ some s
  serve-found f requests c value s k x on found e =
      let opened = open_file-Keeps.at f in
      let moves = run-Moves os client (open_file f).1.world requests in
      find_by-found (column_of c) value s.id (serve f requests).sessions s
        (Indexed-column c (serve f requests).db (moves.indexed (opened.keyed k) (opened.indexed x))
          on)
        found e
