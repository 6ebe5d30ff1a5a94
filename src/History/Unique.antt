-- ===== src/History/Unique.antt =====
-- What Open and every history after it keep of the unique indexes.
use vasuli.Prelude.{
  String, ◌≡◌, refl, sym, inl, inr, false, Bool-cases, Option, none, some, List, [], ◌∷◌, arith,
  map, subst,
}
use vasuli.Exec.{Exec, modify}
use vasuli.Exec.Within.{
  Order, Within, Within-bind, Within-pure, Within-gets, Within-if, Within-attempt,
}
use vasuli.World.{World, driver_call}
use vasuli.Store.Tables.{RecoverySession, Database}
use vasuli.Store.Rows.{find}
use vasuli.Store.Shared.{held, shared, Indexed}
use vasuli.Store.Opening.{
  Version, without_tables, without_next_eligible_at, up_to_date, File, create_tables,
  SchemaStatement, table_of_sessions, index_of_sessions, has_name, columns, create_sessions,
  execute, apply_schema, migrate, has_column, add_and_backfill, open_file, on_world,
  change_sessions, backfill_row, add_column, Column, call_session_id, razorpay_payment_id,
  razorpay_link_id, column_of, index_on, with_index, build_index, create_index,
  apply_unique_indexes,
}
use vasuli.Lifecycle.Tables.{Keyed}
use vasuli.Lifecycle.Outcome.{driver_call-IsQuiet}

-- Ids and indexed columns stay apart.
pub record Keeps (d d' : Database) : Type 0 where
  pub keyed : Keyed d.sessions → Keyed d'.sessions
  pub indexed : Indexed d → Indexed d'

abbrev pub KeepsFile : File → File → Type 0
KeepsFile f f' = Keeps f.world.db f'.world.db

abbrev KeepsWorld : World → World → Type 0
KeepsWorld w w' = Keeps w.db w'.db

Keeps-refl : (d : Database) → Keeps d d
Keeps-refl d = record { keyed = λ k. k; indexed = λ x. x }

KeepsFile-Order : Order KeepsFile
KeepsFile-Order = record {
  same = λ f. Keeps-refl f.world.db;
  chain = λ f g h m n. record {
    keyed = λ k. n.keyed (m.keyed k);
    indexed = λ x. n.indexed (m.indexed x);
  };
}

KeepsWorld-Order : Order KeepsWorld
KeepsWorld-Order = record {
  same = λ w. Keeps-refl w.db;
  chain = λ f g h m n. record {
    keyed = λ k. n.keyed (m.keyed k);
    indexed = λ x. n.indexed (m.indexed x);
  };
}

on_world-Within :
    {A : Type 0} (m : Exec World A) → Within KeepsWorld m → Within KeepsFile (on_world m)
on_world-Within m h = record { at = λ f. h.at f.world }

driver_call-Keeps : (what : String) → Within KeepsWorld (driver_call what)
driver_call-Keeps what = record {
  at = λ w. subst (λ d. Keeps w.db d) (sym ((driver_call-IsQuiet what).at w)) (Keeps-refl w.db);
}

with_index-Indexed :
    (c : Column) (d : Database)
    → shared (column_of c) d.sessions ≡ false
    → Indexed d
    → Indexed (record d { indexes = with_index c d.indexes })
with_index-Indexed call_session_id d s x = record { call = s; payment = x.payment; link = x.link }
with_index-Indexed razorpay_payment_id d s x = record { call = x.call; payment = s; link = x.link }
with_index-Indexed razorpay_link_id d s x = record { call = x.call; payment = x.payment; link = s }

build_index-Keeps : (c : Column) → Within KeepsWorld (build_index c)
unfolding build_index
build_index-Keeps c = record {
  at = λ w. elim (Bool-cases (index_on c w.indexes)) [
    | inl on ↦ rw on (KeepsWorld-Order.same w)
    | inr off ↦ elim (Bool-cases (shared (column_of c) w.sessions)) [
      | inl t ↦ rw (off, t) (KeepsWorld-Order.same w)
      | inr s ↦ rw (off, s) (record { keyed = λ k. k; indexed = with_index-Indexed c w.db s })
    ]
  ];
}

ruleset world_rules = (
  Within-bind, Within-pure, Within-attempt, KeepsWorld-Order, driver_call-Keeps, build_index-Keeps,
)

create_index-Keeps : (c : Column) → Within KeepsWorld (create_index c)
unfolding create_index
create_index-Keeps c = search world_rules

apply_unique_indexes-Keeps : (cs : List Column) → Within KeepsWorld (apply_unique_indexes cs)
unfolding apply_unique_indexes
apply_unique_indexes-Keeps [] = search world_rules
apply_unique_indexes-Keeps (c ∷ cs) =
    Within-bind KeepsWorld-Order _ _ (Within-attempt _ (create_index-Keeps c))
      (λ _. apply_unique_indexes-Keeps cs)

create_sessions-Keeps : (v : Version) (f : File) → KeepsFile f (create_sessions v f)
unfolding shared
create_sessions-Keeps without_tables f = record {
  keyed = λ k. tt;
  indexed = λ x. record { call = refl; payment = refl; link = refl };
}
create_sessions-Keeps without_next_eligible_at f = KeepsFile-Order.same f
create_sessions-Keeps up_to_date f = KeepsFile-Order.same f

execute-Keeps : (s : SchemaStatement) → Within KeepsFile (execute s)
unfolding execute
execute-Keeps table_of_sessions = record { at = λ f. create_sessions-Keeps f.version f }
execute-Keeps (index_of_sessions column) = record {
  at = λ f. elim (Bool-cases (has_name column (columns f.version))) [
    | inl t ↦ rw t (KeepsFile-Order.same f)
    | inr n ↦ rw n (KeepsFile-Order.same f)
  ];
}

create_tables-Keeps : (ss : List SchemaStatement) → Within KeepsFile (create_tables ss)
unfolding create_tables
create_tables-Keeps [] = Within-pure KeepsFile-Order tt
create_tables-Keeps (s ∷ ss) =
    Within-bind KeepsFile-Order _ _ (execute-Keeps s) (λ _. create_tables-Keeps ss)

module _ (g : RecoverySession → RecoverySession) where
  find-map :
      (id : String) (rs : List RecoverySession)
      → ((r : RecoverySession) → (g r).id ≡ r.id)
      → find id rs ≡ none
      → find id (map g rs) ≡ none
  unfolding find
  find-map id [] h e = refl
  find-map id (r ∷ rs) h e = ground (arith, h r, find-map id rs h)

  Keyed-map :
      (rs : List RecoverySession)
      → ((r : RecoverySession) → (g r).id ≡ r.id)
      → Keyed rs
      → Keyed (map g rs)
  Keyed-map [] h k = tt
  Keyed-map (r ∷ rs) h k = (
    subst (λ i. find i (map g rs) ≡ none) (sym (h r)) (find-map r.id rs h k.0),
    Keyed-map rs h k.1,
  )

  held-map :
      (column : RecoverySession → Option String) (o : Option String) (rs : List RecoverySession)
      → ((r : RecoverySession) → column (g r) ≡ column r)
      → held column o (map g rs) ≡ held column o rs
  unfolding held
  held-map column none rs h = refl
  held-map column (some v) [] h = refl
  held-map column (some v) (r ∷ rs) h = rw (h r, held-map column (some v) rs h) refl

  shared-map :
      (column : RecoverySession → Option String) (rs : List RecoverySession)
      → ((r : RecoverySession) → column (g r) ≡ column r)
      → shared column (map g rs) ≡ shared column rs
  unfolding shared
  shared-map column [] h = refl
  shared-map column (r ∷ rs) h =
      rw (h r, held-map column (column r) rs h, shared-map column rs h) refl

-- A change of every row that leaves its id and the indexed columns as they are.
record IsMild (g : RecoverySession → RecoverySession) : Type 0 where
  id : (r : RecoverySession) → (g r).id ≡ r.id
  call : (r : RecoverySession) → (g r).call_session_id ≡ r.call_session_id
  payment : (r : RecoverySession) → (g r).razorpay_payment_id ≡ r.razorpay_payment_id
  link : (r : RecoverySession) → (g r).razorpay_link_id ≡ r.razorpay_link_id

map-Keeps :
    (g : RecoverySession → RecoverySession) (d : Database)
    → IsMild g
    → Keeps d (record d { sessions = map g d.sessions })
map-Keeps g d m = record {
  keyed = Keyed-map g d.sessions m.id;
  indexed = λ x. record {
    call = rw (shared-map g (λ s. s.call_session_id) d.sessions m.call) x.call;
    payment = rw (shared-map g (λ s. s.razorpay_payment_id) d.sessions m.payment) x.payment;
    link = rw (shared-map g (λ s. s.razorpay_link_id) d.sessions m.link) x.link;
  };
}

backfill_row-IsMild : (w : World) → IsMild (backfill_row w)
backfill_row-IsMild w = record {
  id = λ r. ground arith;
  call = λ r. ground arith;
  payment = λ r. ground arith;
  link = λ r. ground arith;
}

change_sessions-Keeps :
    (change : World → RecoverySession → RecoverySession)
    → ((w : World) → IsMild (change w))
    → Within KeepsFile (modify (change_sessions change))
change_sessions-Keeps change h = record {
  at = λ f. map-Keeps (change f.world) f.world.db (h f.world);
}

add_column-Keeps : Within KeepsFile (modify add_column)
add_column-Keeps = record {
  at = λ f.
      map-Keeps _ f.world.db
        (record { id = λ r. refl; call = λ r. refl; payment = λ r. refl; link = λ r. refl });
}

ruleset file_rules = (
  Within-bind, Within-pure, Within-gets, Within-if, KeepsFile-Order, on_world-Within,
  driver_call-Keeps, create_tables-Keeps, change_sessions-Keeps, backfill_row-IsMild,
  add_column-Keeps, apply_unique_indexes-Keeps,
)

apply_schema-Keeps : Within KeepsFile apply_schema
unfolding apply_schema
apply_schema-Keeps = search file_rules depth 9

add_and_backfill-Keeps : Within KeepsFile add_and_backfill
unfolding add_and_backfill
add_and_backfill-Keeps = search file_rules depth 12

has_column-Keeps : Within KeepsFile has_column
unfolding has_column
has_column-Keeps = search file_rules

migrate-Keeps : Within KeepsFile migrate
unfolding migrate
migrate-Keeps = search (file_rules, has_column-Keeps, add_and_backfill-Keeps)

pub open_file-Keeps : Within KeepsFile open_file
unfolding open_file
open_file-Keeps = search (file_rules, apply_schema-Keeps, migrate-Keeps) depth 9
