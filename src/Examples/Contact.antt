-- ===== src/Examples/Contact.antt =====
-- The theorems of `History` over the two customers and one busy history.
use vasuli.Prelude.{◌≡◌, refl, some, List, [], ◌∷◌, All, arith}
use vasuli.World.{World}
use vasuli.Store.Tables.{RecoverySession}
use vasuli.Store.Rows.{find}
use vasuli.Razorpay.Clients.{stub_client}
use vasuli.Lifecycle.Moves.{IsLeftAlone, IsWithinBudget}
use vasuli.Lifecycle.Tables.{Keyed}
use vasuli.Lifecycle.Worlds.{Extends}
use vasuli.History.{Request, assign, end, reschedule, wait, run}
use vasuli.History.Contact.{stopped_forever, three_attempts_at_most, audit_log_append_only}
use vasuli.Examples.Data.{calendar, escalated, two_customers}

abbrev busy : List Request
busy =
    assign "call_1"
    ∷ end "call_1" "AGREED" ""
    ∷ reschedule "rec_1" 0
    ∷ wait 5
    ∷ assign "call_2"
    ∷ []

two_customers-Keyed : Keyed two_customers.sessions
unfolding find
two_customers-Keyed = (refl, (refl, tt))

abbrev after : World
after = run calendar stub_client two_customers busy

stopped_forever_example :
    (r' : RecoverySession) × (find "rec_1" after.sessions ≡ some r') × IsLeftAlone escalated r'
unfolding find
stopped_forever_example =
    stopped_forever calendar stub_client two_customers busy "rec_1" escalated two_customers-Keyed
      refl refl

three_attempts_at_most_example : All IsWithinBudget after.sessions
three_attempts_at_most_example =
    three_attempts_at_most calendar stub_client two_customers busy two_customers-Keyed (
      record { budget = refl; spent = omega arith },
      (record { budget = refl; spent = omega arith }, tt),
    )

audit_log_append_only_example : Extends two_customers.audit_log after.audit_log
audit_log_append_only_example = audit_log_append_only calendar stub_client two_customers busy
