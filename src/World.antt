-- ===== src/World.antt =====
-- What the recovery orchestrator's methods read and change: the database, the clock, the random
-- reads to come (crypto/rand), the failures of the database driver to come, and the payment-link
-- requests that have reached the provider.
pub mod Inversion
use vasuli.Prelude.{ℕ, ℤ, ◌≡◌, String, Option, none, some, List, [], ◌∷◌}
use vasuli.Exec.{Exec, Result, ok, err, other}
use vasuli.Store.Tables.{RecoverySession, Database}
use Prim.Native.String.{◌++◌}

-- client.go in internal/razorpay.
pub record PaymentLinkRequest : Type 0 where
  pub amount_paise : ℤ
  pub description : String
  pub customer_name : String

pub record PaymentLinkResponse : Type 0 where
  pub id : String
  pub short_url : String

-- One read of eight bytes from crypto/rand, in hexadecimal, or its error.
pub data Draw : Type 0 where
  bytes : String → Draw
  broken : String → Draw

-- The queries that order the sessions.
pub data Ordering : Type 0 where
  assignment queue_view : Ordering

-- `row_rank` is the order in which SQLite gives, for a query and a database, the rows that tie in all
-- columns of its ORDER BY: a row of lower rank comes first. Nothing is assumed of it.
-- An entry of `faults` says of one driver call to come whether it fails, and with what message;
-- when the list is used up no call fails. A random read past the end of `entropy` fails.
pub record World : Type 0 where
  pub db : Database
  pub open db use *
  pub clock : ℕ
  pub entropy : List Draw
  pub faults : List (Option String)
  pub link_requests : List PaymentLinkRequest
  pub row_rank : Ordering → Database → RecoverySession → ℕ

abbrev pub ranked : Ordering → World → RecoverySession → ℕ
ranked q w = w.row_rank q w.db

-- `fmt.Errorf("what: %w", err)`.
abbrev pub because : String → String → String
because what cause = what ++ ": " ++ cause

-- One call of the database driver, wrapped as the store wraps its errors.
unfoldable pub driver_call : String → Exec World Unit
driver_call what w = elim w.faults [
  | [] ↦ (ok tt, w)
  | none ∷ rest ↦ (ok tt, record w { faults = rest })
  | some cause ∷ rest ↦ (err (other (because what cause)), record w { faults = rest })
]

-- hex.EncodeToString of eight random bytes, behind the prefix: the `randomID` of both packages.
unfoldable pub random_id : String → (String → String) → Exec World String
random_id prefix wrap w = elim w.entropy [
  | [] ↦ (err (other (wrap "no entropy")), w)
  | bytes hex ∷ rest ↦ (ok (prefix ++ hex), record w { entropy = rest })
  | broken cause ∷ rest ↦ (err (other (wrap cause)), record w { entropy = rest })
]

-- What follows `Begin` in a transaction: an error leaves the tables as they were at `Begin`.
abbrev pub settle : {A : Type 0} → World → Result A × World → Result A × World
settle w (ok a, w') = (ok a, w')
settle w (err e, w') = (err e, record w' { db = w.db })

unfoldable pub transaction : {A : Type 0} → Exec World A → Exec World A
transaction body w = settle w (body w)

-- A client of the payment provider. It has no access to the database.
pub record Client : Type 0 where
  pub create_payment_link : PaymentLinkRequest → Exec World PaymentLinkResponse
  pub keeps_db : (r : PaymentLinkRequest) (w : World) → (create_payment_link r w).1.db ≡ w.db
