-- ===== src/Lifecycle/Worlds.antt =====
-- How an action may change the database: rows make moves, the primary key holds, and the audit log
-- only grows at its end.
use mathlib.Core.List.{append-nil, append_assoc}
use vasuli.Prelude.{◌≡◌, refl, sym, ap, subst, List, [], ◌++◌}
use vasuli.Exec.{Exec, Result, ok, err, proceed, ◌>>=◌}
use vasuli.Exec.Within.{Order, Within}
use vasuli.World.{World, transaction}
use vasuli.Store.Tables.{AuditRow, Database}
use vasuli.Store.Shared.{Indexed}
use vasuli.Lifecycle.Tables.{Keyed, Evolves, Evolves-refl, Evolves-trans}

pub record Extends (log log' : List AuditRow) : Type 0 where
  pub added : List AuditRow
  pub split : log' ≡ log ++ added

pub Extends-refl : (log : List AuditRow) → Extends log log
Extends-refl log = record { added = []; split = sym (append-nil log) }

Extends-trans : (a b c : List AuditRow) → Extends a b → Extends b c → Extends a c
Extends-trans a b c e f = record {
  added = e.added ++ f.added;
  split = rw (f.split, e.split) (append_assoc a e.added f.added);
}

pub record Moves (w w' : World) : Type 0 where
  pub keyed : Keyed w.sessions → Keyed w'.sessions
  pub rows : Keyed w.sessions → Evolves w.sessions w'.sessions
  pub log : Extends w.audit_log w'.audit_log
  pub indexed : Keyed w.sessions → Indexed w.db → Indexed w'.db

pub Moves-Order : Order Moves
Moves-Order = record {
  same = λ w. record {
    keyed = λ k. k;
    rows = λ k. Evolves-refl w.sessions;
    log = Extends-refl w.audit_log;
    indexed = λ k x. x;
  };
  chain = λ u v w m n. record {
    keyed = λ k. n.keyed (m.keyed k);
    rows = λ k. Evolves-trans u.sessions v.sessions w.sessions (m.rows k) (n.rows (m.keyed k));
    log = Extends-trans u.audit_log v.audit_log w.audit_log m.log n.log;
    indexed = λ k x. n.indexed (m.keyed k) (m.indexed k x);
  };
}

-- The indexes promise the same of the same rows.
Indexed-same :
    (d d' : Database) → d'.sessions ≡ d.sessions → d'.indexes ≡ d.indexes → Indexed d → Indexed d'
Indexed-same d d' e f x = record {
  call = rw (e, f) x.call;
  payment = rw (e, f) x.payment;
  link = rw (e, f) x.link;
}

-- An action that leaves the rows and the log as they were.
pub Moves-same :
    (w w' : World)
    → w'.sessions ≡ w.sessions
    → w'.audit_log ≡ w.audit_log
    → w'.indexes ≡ w.indexes
    → Moves w w'
Moves-same w w' e f i = record {
  keyed = λ k. subst Keyed (sym e) k;
  rows = λ k. subst (Evolves w.sessions) (sym e) (Evolves-refl w.sessions);
  log = record { added = []; split = rw (append-nil w.audit_log) f };
  indexed = λ k x. Indexed-same w.db w'.db e i x;
}

transaction-at :
    {A : Type 0} (m : Exec World A) (w : World) (r : Result A × World)
    → m w ≡ r
    → Moves w (m w).1
    → Moves w (transaction m w).1
unfolding transaction
transaction-at m w (ok a, w') e h = rw (e, transaction) (rw e at h)
transaction-at m w (err x, w') e h = rw (e, transaction) (Moves-same w _ refl refl refl)

-- A transaction moves the tables as its body does, or not at all.
pub Within-transaction :
    {A : Type 0} (m : Exec World A) → Within Moves m → Within Moves (transaction m)
Within-transaction m h = record { at = λ w. transaction-at m w (m w) refl (h.at w) }

-- An action that leaves the database as it was.
pub record IsQuiet {A : Type 0} (m : Exec World A) : Type 0 where
  pub at : (w : World) → (m w).1.db ≡ w.db

-- An action that moves the tables from every database with the property.
pub record MovesFrom {A : Type 0} (P : Database → Type 0) (m : Exec World A) : Type 0 where
  pub at : (w : World) → P w.db → Moves w (m w).1

pub Moves-same_db : (w w' : World) → w'.db ≡ w.db → Moves w w'
Moves-same_db w w' d =
    Moves-same w w' (ap (λ (b : Database). b.sessions) d) (ap (λ (b : Database). b.audit_log) d)
      (ap (λ (b : Database). b.indexes) d)

module _ {A B : Type 0} (P : Database → Type 0) (m : Exec World A) (f : A → Exec World B) where
  quiet_proceed :
      (w : World) (r : Result A) (w' : World)
      → P w.db
      → w'.db ≡ w.db
      → ((a : A) → MovesFrom P (f a))
      → Moves w (proceed r f w').1
  quiet_proceed w (ok a) w' p d h =
      Moves-Order.chain w w' _ (Moves-same_db w w' d) ((h a).at w' (subst P (sym d) p))
  quiet_proceed w (err x) w' p d h = Moves-same_db w w' d

  -- After a quiet action the property still holds.
  pub MovesFrom-quiet : IsQuiet m → ((a : A) → MovesFrom P (f a)) → MovesFrom P (m >>= f)
  unfolding ◌>>=◌
  MovesFrom-quiet q h = record { at = λ w p. quiet_proceed w (m w).0 (m w).1 p (q.at w) h }

  moved_proceed :
      (w : World) (r : Result A) (w' : World)
      → Moves w w'
      → ((a : A) → Within Moves (f a))
      → Moves w (proceed r f w').1
  moved_proceed w (ok a) w' d h = Moves-Order.chain w w' _ d ((h a).at w')
  moved_proceed w (err x) w' d h = d

  -- After the move itself the rest must be allowed from anywhere.
  pub MovesFrom-bind : MovesFrom P m → ((a : A) → Within Moves (f a)) → MovesFrom P (m >>= f)
  unfolding ◌>>=◌
  MovesFrom-bind q h = record { at = λ w p. moved_proceed w (m w).0 (m w).1 (q.at w p) h }
