-- ===== src/Store/Shared.antt =====
-- Values of a nullable column that two rows share, which a unique index in store/db.go forbids.
use vasuli.Prelude.{String, Bool, false, ◌||◌, ◌&&◌, ◌≡◌, Option, none, some, List, [], ◌∷◌}
use vasuli.Store.Tables.{RecoverySession, Database}
use vasuli.Store.Rows.{equals}

-- Some row holds the value.
unfoldable pub held :
    (RecoverySession → Option String) → Option String → List RecoverySession → Bool
held column none rs = false
held column (some value) [] = false
held column (some value) (r ∷ rs) = equals value (column r) || held column (some value) rs

unfoldable pub shared : (RecoverySession → Option String) → List RecoverySession → Bool
unfolding held
shared column [] = false
shared column (r ∷ rs) = held column (column r) rs || shared column rs

-- What the unique indexes that exist promise of the rows.
pub record Indexed (db : Database) : Type 0 where
  pub call : (db.indexes.by_call && shared (λ s. s.call_session_id) db.sessions) ≡ false
  pub payment : (db.indexes.by_payment && shared (λ s. s.razorpay_payment_id) db.sessions) ≡ false
  pub link : (db.indexes.by_link && shared (λ s. s.razorpay_link_id) db.sessions) ≡ false
