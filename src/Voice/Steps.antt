-- ===== src/Voice/Steps.antt =====
-- The steps of one call: each goroutine's next action, in any order, with what the streams return.
-- An action that cannot happen in a state gives `none`.
use vasuli.Prelude.{
  ℕ, zero, suc, String, Bool, true, false, Option, none, some, List, [], ◌∷◌, ◌++◌, length, ltb,
  str_eq, if◌then◌else◌, ◌≡◌,
}
use vasuli.Voice.Session.{
  Session, active, responding, terminated, state_eq, transition_to, signal_done, set_outcome,
}
use vasuli.Voice.Call.{
  Call, Chunk, Incoming, classification, audio, ignored, eof, gone, FromCaller, speech, end_session,
  unknown, lost, Pump, receiving, answering, pushing, stopping, closing, stopped, Relay, listening,
  sending, publishing, exited, Outbound, draining, drained, Main, selecting, collecting,
  half_closing, awaiting, reading, cancelling, joining, reporting, returned,
}

-- Why the second select of collectOutcome wakes up: OutcomeChan, DoneChan or the timer.
pub data Wake : Type 0 where
  on_outcome on_done on_timeout : Wake

pub data Action : Type 0 where
  pump_receive : Incoming → Action
  pump_answer pump_push pump_signal pump_close : Action
  idle_fire idle_look idle_move : Action
  relay_receive : FromCaller → Action
  relay_send : Bool → Action
  relay_publish : Action
  outbound_send : Bool → Action
  outbound_stop : Action
  main_done main_inbound main_collect : Action
  main_half_close : Bool → Action
  main_wake : Wake → Action
  main_read main_cancel main_join main_report : Action

abbrev pub fallback_outcome : String
fallback_outcome = "UNCLEAR"

abbrev pub agent_audio_capacity : ℕ
agent_audio_capacity = 100

-- readPump: the body of the loop for what Recv returned. `handleAudioEvent` looks at the state first.
unfoldable pub receive : Incoming → Call → Call
receive (classification outcome promise_date) c = record c {
  session = set_outcome outcome promise_date c.session;
  classified = (outcome, promise_date) ∷ c.classified;
}
receive (audio d) c =
    if state_eq c.session.state responding
    then record c { pump = pushing d; armed = true; delivered = c.delivered ++ d ∷ [] }
    else record c { pump = answering d; delivered = c.delivered ++ d ∷ [] }
receive ignored c = c
receive eof c = record c { session = (transition_to terminated c.session).1; pump = stopping }
receive gone c = record c { pump = stopping }

unfoldable pub step_receive : Pump → Incoming → Call → Option Call
unfolding receive
step_receive receiving i c = some (receive i c)
step_receive _ i c = none

-- The transition of handleAudioEvent, whose failure is only logged, and the timer's Reset.
unfoldable pub step_answer : Pump → Call → Option Call
step_answer (answering d) c =
    some (record c {
      session = (transition_to responding c.session).1;
      armed = true;
      pump = pushing d;
    })
step_answer _ c = none

unfoldable pub step_push : Pump → Call → Option Call
step_push (pushing d) c =
    if ltb (length c.buffer) agent_audio_capacity
    then some (record c { buffer = c.buffer ++ d ∷ []; pump = receiving })
    else none
step_push _ c = none

-- The deferred Stop of the timer and signalDone, then the deferred close.
unfoldable pub step_signal : Pump → Call → Option Call
step_signal stopping c =
    some (record c { session = signal_done c.session; armed = false; pump = closing })
step_signal _ c = none

unfoldable pub step_close : Pump → Call → Option Call
step_close closing c = some (record c { audio_closed = true; pump = stopped })
step_close _ c = none

-- The callback of the idle timer: GetState, then transitionTo.
unfoldable pub step_fire : Call → Option Call
step_fire c = if c.armed then some (record c { armed = false; fired = suc c.fired }) else none

unfoldable pub step_look : ℕ → Call → Option Call
step_look zero c = none
step_look (suc n) c =
    if state_eq c.session.state responding
    then some (record c { fired = n; moving = suc c.moving })
    else some (record c { fired = n })

unfoldable pub step_move : ℕ → Call → Option Call
step_move zero c = none
step_move (suc n) c = some (record c { moving = n; session = (transition_to active c.session).1 })

-- The relay's loop body for what Recv returned. An event that is neither audio nor END_SESSION is
-- passed over.
abbrev pub hear : FromCaller → Relay
hear (speech d) = sending d
hear end_session = publishing
hear unknown = listening
hear lost = publishing

unfoldable pub step_hear : Relay → FromCaller → Call → Option Call
step_hear listening e c = some (record c { relay = hear e })
step_hear _ e c = none

-- SendAudio on the inference stream, and whether it succeeded.
unfoldable pub step_send : Relay → Bool → Call → Option Call
step_send (sending d) true c = some (record c { relay = listening })
step_send (sending d) false c = some (record c { relay = publishing })
step_send _ ok c = none

unfoldable pub step_publish : Relay → Call → Option Call
step_publish publishing c =
    if c.inbound_err then none else some (record c { inbound_err = true; relay = exited })
step_publish _ c = none

-- The outbound loop: a chunk is received, and sent unless a send has failed before.
abbrev pub play : Bool → Bool → Chunk → List Chunk → Call → Call
play true ok d rest c = record c { buffer = rest }
play false true d rest c = record c { buffer = rest; played = c.played ++ d ∷ [] }
play false false d rest c = record c { buffer = rest; outbound = draining true }

unfoldable pub step_play : Outbound → List Chunk → Bool → Call → Option Call
step_play (draining failed) (d ∷ rest) ok c = some (play failed ok d rest c)
step_play _ _ ok c = none

unfoldable pub step_drained : Outbound → List Chunk → Call → Option Call
step_drained (draining failed) [] c =
    if c.audio_closed then some (record c { outbound = drained failed }) else none
step_drained _ _ c = none

-- The first select of StreamAudio; its second case receives the error.
unfoldable pub step_done : Main → Call → Option Call
step_done selecting c =
    if c.session.done_closed then some (record c { main = collecting false }) else none
step_done _ c = none

unfoldable pub step_inbound : Main → Call → Option Call
step_inbound selecting c =
    if c.inbound_err then some (record c { main = collecting true; inbound_err = false }) else none
step_inbound _ c = none

-- collectOutcome up to its half-close.
unfoldable pub collect : Bool → Session → Main
collect relay_exited s =
    if str_eq s.outcome ""
    then if relay_exited then half_closing else cancelling fallback_outcome ""
    else cancelling s.outcome s.promise_date

unfoldable pub step_collect : Main → Call → Option Call
unfolding collect
step_collect (collecting relay_exited) c = some (record c { main = collect relay_exited c.session })
step_collect _ c = none

-- SignalInputComplete, and whether CloseSend succeeded.
unfoldable pub step_half_close : Main → Bool → Call → Option Call
step_half_close half_closing true c = some (record c { half_closed = true; main = awaiting })
step_half_close half_closing false c =
    some (record c { half_closed = true; main = cancelling fallback_outcome "" })
step_half_close _ ok c = none

abbrev pub ready : Wake → Session → Bool
ready on_outcome s = s.outcome_closed
ready on_done s = s.done_closed
ready on_timeout s = true

unfoldable pub step_wake : Main → Wake → Call → Option Call
step_wake awaiting why c = if ready why c.session then some (record c { main = reading }) else none
step_wake _ why c = none

unfoldable pub read_outcome : Session → Main
read_outcome s =
    if str_eq s.outcome ""
    then cancelling fallback_outcome ""
    else cancelling s.outcome s.promise_date

unfoldable pub step_read : Main → Call → Option Call
unfolding read_outcome
step_read reading c = some (record c { main = read_outcome c.session })
step_read _ c = none

unfoldable pub step_cancel : Main → Call → Option Call
step_cancel (cancelling o p) c = some (record c { cancelled = true; main = joining o p })
step_cancel _ c = none

unfoldable pub step_join : Main → Outbound → Call → Option Call
step_join (joining o p) (drained _) c = some (record c { main = reporting o p })
step_join _ _ c = none

-- The report to the recovery orchestrator, whose failure is only logged.
unfoldable pub step_report : Main → Call → Option Call
step_report (reporting o p) c =
    some
      (record c { main = returned; reports = if c.assigned then (o, p) ∷ c.reports else c.reports })
step_report _ c = none

unfoldable pub step : Action → Call → Option Call
unfolding step_receive step_answer step_push step_signal step_close step_fire step_look step_move
    step_hear step_send step_publish step_play step_drained step_done step_inbound step_collect
    step_half_close step_wake step_read step_cancel step_join step_report
step (pump_receive i) c = step_receive c.pump i c
step pump_answer c = step_answer c.pump c
step pump_push c = step_push c.pump c
step pump_signal c = step_signal c.pump c
step pump_close c = step_close c.pump c
step idle_fire c = step_fire c
step idle_look c = step_look c.fired c
step idle_move c = step_move c.moving c
step (relay_receive e) c = step_hear c.relay e c
step (relay_send ok) c = step_send c.relay ok c
step relay_publish c = step_publish c.relay c
step (outbound_send ok) c = step_play c.outbound c.buffer ok c
step outbound_stop c = step_drained c.outbound c.buffer c
step main_done c = step_done c.main c
step main_inbound c = step_inbound c.main c
step main_collect c = step_collect c.main c
step (main_half_close ok) c = step_half_close c.main ok c
step (main_wake why) c = step_wake c.main why c
step main_read c = step_read c.main c
step main_cancel c = step_cancel c.main c
step main_join c = step_join c.main c.outbound c
step main_report c = step_report c.main c

-- A schedule: the state after it, if each action can happen in its turn.
unfoldable pub run : List Action → Call → Option Call
run [] c = some c
run (a ∷ rest) c = elim (step a c) [ none ↦ none | some c' ↦ run rest c' ]

pub data Reach (start : Call) : Call → Type 0 where
  here : Reach start start
  later : {c c' : Call} (a : Action) → Reach start c → step a c ≡ some c' → Reach start c'
