-- ===== src/History/Opening.antt =====
-- Opening the database, and any history after it.
use vasuli.Prelude.{String, ◌≡◌, refl, ◌∙◌}
use vasuli.Exec.{Error, Exec, Result, ok, err, proceed, ◌>>=◌, ◌>>◌}
use vasuli.World.{World, driver_call}
use vasuli.Store.Opening.{
  without_next_eligible_at, File, create_tables, schema_sql, execute, has_name, apply_schema,
  open_file, on_world,
}
use vasuli.Lifecycle.Outcome.{driver_call-IsQuiet}

-- An Open that failed and left the tables as they were.
pub record IsRefused (f f' : File) (r : Result (Unit {0})) : Type 0 where
  pub why : Error
  pub failed : r ≡ err why
  pub same_version : f'.version ≡ f.version
  pub same_db : f'.world.db ≡ f.world.db

abbrev Refuses : File → Exec File Unit → Type 0
Refuses f m = IsRefused f (m f).1 (m f).0

-- Nothing runs after a refusal.
Refuses-bind :
    (f : File) (m : Exec File Unit) (n : Unit {0} → Exec File Unit)
    → Refuses f m
    → Refuses f (m >>= n)
unfolding ◌>>=◌
Refuses-bind f m n h =
    rw h.failed
      (record { why = h.why; failed = refl; same_version = h.same_version; same_db = h.same_db })

module _ (f : File) (n : Exec File Unit) where
  proceed-Refuses :
      (r : Result (Unit {0})) (w : World)
      → w.db ≡ f.world.db
      → Refuses (record f { world = w }) n
      → IsRefused f
          (proceed r (λ _. n) (record f { world = w })).1
          (proceed r (λ _. n) (record f { world = w })).0
  proceed-Refuses (ok tt) w e h = record {
    why = h.why;
    failed = h.failed;
    same_version = h.same_version;
    same_db = h.same_db ∙ e;
  }
  proceed-Refuses (err x) w e h = record {
    why = x;
    failed = refl;
    same_version = refl;
    same_db = e;
  }

  -- A call of the driver before changes nothing of the file.
  driver_call-Refuses :
      (what : String)
      → ((w : World) → Refuses (record f { world = w }) n)
      → Refuses f (on_world (driver_call what) >> n)
  unfolding ◌>>=◌
  driver_call-Refuses what h =
      proceed-Refuses (driver_call what f.world).0 (driver_call what f.world).1
        ((driver_call-IsQuiet what).at f.world) (h (driver_call what f.world).1)

-- The table is not created again, so the index meets the columns of before.
create_tables-Refuses :
    (f : File) → f.version ≡ without_next_eligible_at → Refuses f (create_tables schema_sql)
unfolding create_tables execute has_name ◌>>=◌
create_tables-Refuses f e =
    rw e (record { why = _; failed = refl; same_version = refl; same_db = refl })

apply_schema-Refuses : (f : File) → f.version ≡ without_next_eligible_at → Refuses f apply_schema
unfolding apply_schema
apply_schema-Refuses f e =
    driver_call-Refuses f _ _ (λ w. create_tables-Refuses (record f { world = w }) e)

-- A database file of the schema before next_eligible_at is never migrated: Open fails on it, whatever
-- else fails, and leaves the file as it was, so that every later start fails too.
pub open_file-IsRefused :
    (f : File) → f.version ≡ without_next_eligible_at → IsRefused f (open_file f).1 (open_file f).0
unfolding open_file
open_file-IsRefused f e = driver_call-Refuses f _ _ (λ w.
    Refuses-bind (record f { world = w }) apply_schema _
      (apply_schema-Refuses (record f { world = w }) e))
