-- ===== src/History.antt =====
-- Histories of the recovery orchestrator: any sequence of calls of campaign/manager.go, with time
-- passing between them, an operator who reschedules a session by hand (store.SetNextEligibleAt), and
-- every failure of the driver, of the random source and of the payment provider that the world holds.
pub mod Contact
pub mod Opening
pub mod Unique
pub mod Lookup
use vasuli.Prelude.{ℕ, ◌+◌, String, refl, List, [], ◌∷◌}
use vasuli.Exec.Within.{Within}
use vasuli.World.{World, Client}
use vasuli.Platform.{Platform}
use vasuli.Store.Tables.{Account}
use vasuli.Store.Outcome.{set_next_eligible_at}
use vasuli.Razorpay.Webhook.{PaymentEntity}
use vasuli.Campaign.EndSession.{end_session}
use vasuli.Campaign.Sessions.{create_campaign, assign_session}
use vasuli.Campaign.Payments.{
  handle_payment_captured, handle_payment_link_paid, handle_payment_failed,
}
use vasuli.Lifecycle.Worlds.{Moves, Moves-Order, Moves-same}
use vasuli.Lifecycle.Updates.{set_next_eligible_at-Within}
use vasuli.Lifecycle.Requests.{
  create_campaign-Within, assign_session-Within, end_session-Within, handle_payment_captured-Within,
  handle_payment_link_paid-Within, handle_payment_failed-Within,
}

pub data Request : Type 0 where
  create : String → List Account → Request
  assign : String → Request
  end : String → String → String → Request
  captured : String → Request
  link_paid : String → String → Request
  payment_failed : PaymentEntity → Request
  reschedule : String → ℕ → Request
  wait : ℕ → Request

module _ (os : Platform) (client : Client) where
  -- The world after one request, whether it succeeds or fails.
  unfoldable pub step : World → Request → World
  step w (create name accounts) = (create_campaign os name accounts w).1
  step w (assign call) = (assign_session call w).1
  step w (end call outcome promise_date) = (end_session os client call outcome promise_date w).1
  step w (captured id) = (handle_payment_captured id w).1
  step w (link_paid link_id id) = (handle_payment_link_paid link_id id w).1
  step w (payment_failed p) = (handle_payment_failed os p w).1
  step w (reschedule id at) = (set_next_eligible_at id at w).1
  step w (wait n) = record w { clock = w.clock + n }

  unfoldable pub run : World → List Request → World
  unfolding step
  run w [] = w
  run w (r ∷ rs) = run (step w r) rs

  pub step-Moves : (w : World) (r : Request) → Moves w (step w r)
  unfolding step
  step-Moves w (create name accounts) = (create_campaign-Within os name accounts).at w
  step-Moves w (assign call) = (assign_session-Within call).at w
  step-Moves w (end call outcome promise_date) =
      (end_session-Within os client call outcome promise_date).at w
  step-Moves w (captured id) = (handle_payment_captured-Within id).at w
  step-Moves w (link_paid link_id id) = (handle_payment_link_paid-Within link_id id).at w
  step-Moves w (payment_failed p) = (handle_payment_failed-Within os p).at w
  step-Moves w (reschedule id at) = (set_next_eligible_at-Within id at).at w
  step-Moves w (wait n) = Moves-same w _ refl refl refl

  pub run-Moves : (w : World) (rs : List Request) → Moves w (run w rs)
  unfolding run
  run-Moves w [] = Moves-Order.same w
  run-Moves w (r ∷ rs) = Moves-Order.chain w (step w r) _ (step-Moves w r) (run-Moves (step w r) rs)
