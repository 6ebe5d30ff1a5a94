-- ===== src/Examples/Opening.antt =====
-- Opening two database files, and a history after it.
use vasuli.Prelude.{◌≡◌, refl, false, some, List, [], ◌∷◌}
use vasuli.Exec.{◌>>=◌, attempt}
use vasuli.World.{driver_call}
use vasuli.Store.Tables.{day}
use vasuli.Store.Rows.{find, find_by, update}
use vasuli.Store.Outcome.{set_next_eligible_at}
use vasuli.Store.Shared.{held, shared, Indexed}
use vasuli.Store.Opening.{
  without_next_eligible_at, up_to_date, File, call_session_id, create_tables, apply_schema, migrate,
  has_column, build_index, create_index, apply_unique_indexes, open_file,
}
use vasuli.Razorpay.Clients.{stub_client}
use vasuli.History.{Request, reschedule, wait, step, run}
use vasuli.History.Opening.{IsRefused, open_file-IsRefused}
use vasuli.History.Lookup.{serve, serve-found}
use vasuli.Examples.Data.{calendar, in_call, one_call}
use vasuli.Examples.Calls.{one_call-Keyed}

-- A file that no index has been made for yet.
abbrev bare : File
bare = record {
  version = up_to_date;
  world = record one_call {
    db = record one_call.db {
      indexes = record { by_call = false; by_payment = false; by_link = false };
    };
  };
}

abbrev earlier : File
earlier = record bare { version = without_next_eligible_at }

open_file-IsRefused_example : IsRefused earlier (open_file earlier).1 (open_file earlier).0
open_file-IsRefused_example = open_file-IsRefused earlier refl

abbrev later_that_day : List Request
later_that_day = wait day ∷ reschedule "rec_1" day ∷ []

bare-Indexed : Indexed bare.world.db
bare-Indexed = record { call = refl; payment = refl; link = refl }

serve-found_example :
    find_by
      (λ r. r.call_session_id)
      "call_1"
      (serve calendar stub_client bare later_that_day).sessions
    ≡ some in_call
unfolding open_file apply_schema create_tables migrate has_column apply_unique_indexes create_index
    build_index shared held attempt run step set_next_eligible_at driver_call ◌>>=◌ find update
serve-found_example =
    serve-found calendar stub_client bare later_that_day call_session_id "call_1" in_call
      one_call-Keyed bare-Indexed refl refl refl
