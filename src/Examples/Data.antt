-- ===== src/Examples/Data.antt =====
-- A campaign of two customers: one escalated to a human, one waiting to be called.
use vasuli.Prelude.{
  false, ◌*◌, ℕ, pos, String, true, Option, none, some, [], ◌∷◌, str_eq, if◌then◌else◌,
}
use vasuli.World.{World, bytes}
use vasuli.Platform.{Platform}
use vasuli.Store.Tables.{Status, pending, active, refused, running, RecoverySession, second, day}

-- A calendar that knows two days.
abbrev pub calendar : Platform
calendar = record {
  parse_date = λ s. if str_eq s "2026-09-05" then some (100 * day) else none;
  format_spoken = λ t. "5 September 2026";
  format_date = λ t. "2026-09-05";
  of_unix = λ s. s;
}

abbrev pub customer : String → Status → ℕ → Option ℕ → RecoverySession
customer id status attempts next = record {
  id = id;
  campaign_id = "camp_1";
  call_session_id = none;
  customer_name = "Asha";
  outstanding_paise = pos 420000;
  product_name = "loan";
  due_date = "2026-08-15";
  razorpay_payment_id = none;
  system_prompt = "prompt";
  status = status;
  promise_date = none;
  razorpay_link_id = none;
  contact_attempts = attempts;
  max_contact_attempts = 3;
  created_at = 0;
  call_started_at = none;
  call_ended_at = none;
  recovered_at = none;
  next_eligible_at = next;
  zoned = false;
}

abbrev pub escalated : RecoverySession
escalated = customer "rec_1" refused 1 none

abbrev pub waiting : RecoverySession
waiting = customer "rec_2" pending 0 (some 0)

abbrev pub two_customers : World
two_customers = record {
  db = record {
    campaigns =
        record { id = "camp_1"; name = "August"; total = 2; status = running; created_at = 0 } ∷ [];
    sessions = escalated ∷ waiting ∷ [];
    audit_log = [];
    indexes = record { by_call = true; by_payment = true; by_link = true };
  };
  clock = 5 * second;
  entropy = bytes "00000000000000aa" ∷ [];
  faults = [];
  link_requests = [];
  row_rank = λ q b r. 0;
}

abbrev pub in_call : RecoverySession
in_call = record (customer "rec_3" active 1 none) {
  call_session_id = some "call_1";
  razorpay_payment_id = some "pay_1";
  razorpay_link_id = some "plink_1";
}

-- The same campaign with one customer on the phone.
abbrev pub one_call : World
one_call = record two_customers {
  db = record two_customers.db { sessions = escalated ∷ in_call ∷ [] };
}
