-- ===== src/Voice/Session.antt =====
-- Session of internal/session/session.go: the states, the outcome and the two signal channels.
use vasuli.Prelude.{String, Bool, true, false, List, [], ◌∷◌, ite, ◌||◌, if◌then◌else◌}

pub data SessionState : Type 0 where
  created connecting active processing responding terminated : SessionState

unfoldable pub SessionState-discrete : Discrete SessionState
SessionState-discrete = hlevel

abbrev pub state_eq : SessionState → SessionState → Bool
unfolding SessionState-discrete
state_eq s t = ite (SessionState-discrete s t) true false

-- validTransitions.
abbrev pub valid_transitions : SessionState → List SessionState
valid_transitions created = connecting ∷ []
valid_transitions connecting = active ∷ []
valid_transitions active = processing ∷ responding ∷ terminated ∷ []
valid_transitions processing = responding ∷ terminated ∷ []
valid_transitions responding = active ∷ terminated ∷ []
valid_transitions terminated = []

-- slices.Contains.
unfoldable pub allows : List SessionState → SessionState → Bool
unfolding SessionState-discrete
allows [] s = false
allows (t ∷ ts) s = state_eq t s || allows ts s

-- The channels hold no values: they are closed or not, once.
pub record Session : Type 0 where
  pub state : SessionState
  pub outcome : String
  pub promise_date : String
  pub outcome_closed : Bool
  pub done_closed : Bool

abbrev pub new_session : Session
new_session = record {
  state = created;
  outcome = "";
  promise_date = "";
  outcome_closed = false;
  done_closed = false;
}

-- transitionTo: whether the transition was legal, and the session after it.
unfoldable pub transition_to : SessionState → Session → Bool × Session
unfolding allows
transition_to next s =
    if allows (valid_transitions s.state) next
    then (true, record s { state = next })
    else (false, s)

-- Attach, without the stream that it stores; the second transition is tried if the first succeeds.
unfoldable pub attach : Session → Bool × Session
unfolding transition_to
attach s =
    let (ok, s') = transition_to connecting s in if ok then transition_to active s' else (false, s')

-- signalDone and setOutcome close their channels through a sync.Once.
unfoldable pub signal_done : Session → Session
signal_done s = record s { done_closed = true }

unfoldable pub set_outcome : String → String → Session → Session
set_outcome outcome promise_date s = record s {
  outcome = outcome;
  promise_date = promise_date;
  outcome_closed = true;
}

unfoldable pub terminate : Session → Session
unfolding transition_to signal_done
terminate s = let (ok, s') = transition_to terminated s in if ok then signal_done s' else s'
