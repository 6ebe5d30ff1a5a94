-- ===== src/Examples/Voice.antt =====
-- One call of the voice service, and the theorems of `Voice` at it.
use vasuli.Prelude.{
  ◌≡◌, ◌⊎◌, subst, refl, inl, ℕ, true, false, Option, none, some, List, [], ◌∷◌, ◌++◌,
}
use vasuli.Voice.Session.{
  terminated, responding, SessionState-discrete, new_session, attach, allows, transition_to,
  signal_done, set_outcome,
}
use vasuli.Voice.Call.{
  Call, attached, stopped, stopping, exited, drained, returned, half_closing, classification, audio,
  eof, end_session,
}
use vasuli.Voice.Steps
use vasuli.Voice.Control.{half_close-alone}
use vasuli.Voice.Outcome.{Reported, returned-Reported}
use vasuli.Voice.InOrder.{has_failed, held}
use vasuli.Voice.Audio.{Reach-played}
use vasuli.Voice.Teardown.{WillReturn, Reach-WillReturn}
use vasuli.Voice.Ending.{eof_is_final}

module _ (start : Call) where
  run-Reach :
      (actions : List Steps.Action) (c c' : Call)
      → Steps.Reach start c
      → Steps.run actions c ≡ some c'
      → Steps.Reach start c'
  unfolding Steps.run
  run-Reach [] c c' r e = subst (Steps.Reach start) (cc) r
  run-Reach (a ∷ rest) c c' r e =
      next (λ d p q. run-Reach rest d c' (Steps.later a r p) q) (Steps.step a c) refl e
    where
      next :
          ((d : Call) → Steps.step a c ≡ some d → Steps.run rest d ≡ some c' → Steps.Reach start c')
          → (o : Option Call) → Steps.step a c ≡ o
          → elim o [ none ↦ none | some d ↦ Steps.run rest d ] ≡ some c'
          → Steps.Reach start c'
      next k none p q = absurd (cc)
      next k (some d) p q = k d p q

-- The agent speaks, and the caller hangs up; the engine is told that no more input comes.
abbrev hang_up : List Steps.Action
hang_up =
    Steps.pump_receive (audio (7 ∷ []))
    ∷ Steps.pump_answer
    ∷ Steps.pump_push
    ∷ Steps.outbound_send true
    ∷ Steps.relay_receive end_session
    ∷ Steps.relay_publish
    ∷ Steps.main_inbound
    ∷ Steps.main_collect
    ∷ []

abbrev hung_up : Call
hung_up = record (attached true) {
  session = record (attach new_session).1 { state = responding };
  relay = exited;
  main = half_closing;
  armed = true;
  delivered = (7 ∷ []) ∷ [];
  played = (7 ∷ []) ∷ [];
}

hang_up-Reach : Steps.Reach (attached true) hung_up
unfolding Steps.run Steps.step Steps.receive SessionState-discrete transition_to allows attach
    Steps.collect
hang_up-Reach = run-Reach (attached true) hang_up (attached true) hung_up Steps.here refl

half_close-alone_example : hung_up.relay ≡ exited
half_close-alone_example = half_close-alone true hung_up hang_up-Reach (inl refl)

Reach-played_example :
    (rest : List (List ℕ)) × (hung_up.played ++ rest ≡ hung_up.delivered)
    × ((has_failed hung_up.outbound ≡ true) ⊎ (rest ≡ hung_up.buffer ++ held hung_up.pump))
Reach-played_example = Reach-played true hung_up hang_up-Reach

Reach-WillReturn_example : WillReturn hung_up
Reach-WillReturn_example = Reach-WillReturn true hung_up hang_up-Reach cc

-- The engine classifies the call and closes its stream.
abbrev ended_stream : Call
ended_stream = record hung_up {
  session = record hung_up.session { state = terminated };
  pump = stopping;
}

ended_stream-step : Steps.step (Steps.pump_receive eof) hung_up ≡ some ended_stream
unfolding Steps.step Steps.receive SessionState-discrete transition_to allows
ended_stream-step = refl

-- The idle timer had fired in time, and the read loop returns.
abbrev late_timer : List Steps.Action
late_timer = Steps.idle_fire ∷ Steps.pump_signal ∷ Steps.idle_look ∷ Steps.pump_close ∷ []

abbrev after_timer : Call
after_timer = record ended_stream {
  session = record ended_stream.session { done_closed = true };
  pump = stopped;
  audio_closed = true;
  armed = false;
}

after_timer-Reach : Steps.Reach ended_stream after_timer
unfolding Steps.run Steps.step SessionState-discrete signal_done
after_timer-Reach = run-Reach ended_stream late_timer ended_stream after_timer Steps.here refl

eof_is_final_example : after_timer.session.state ≡ terminated
eof_is_final_example =
    eof_is_final true hung_up ended_stream after_timer hang_up-Reach ended_stream-step
      after_timer-Reach

-- The engine classifies the call that the caller left, and the gateway reports it.
abbrev wrap_up : List Steps.Action
wrap_up =
    Steps.main_half_close true
    ∷ Steps.pump_receive (classification "PROMISED" "2026-09-05")
    ∷ Steps.main_wake Steps.on_outcome
    ∷ Steps.main_read
    ∷ Steps.main_cancel
    ∷ Steps.pump_receive eof
    ∷ Steps.pump_signal
    ∷ Steps.pump_close
    ∷ Steps.outbound_stop
    ∷ Steps.main_join
    ∷ Steps.main_report
    ∷ []

abbrev pub promised_call : Call
promised_call = record hung_up {
  session = record {
    state = terminated;
    outcome = "PROMISED";
    promise_date = "2026-09-05";
    outcome_closed = true;
    done_closed = true;
  };
  pump = stopped;
  outbound = drained false;
  main = returned;
  audio_closed = true;
  armed = false;
  half_closed = true;
  cancelled = true;
  classified = ("PROMISED", "2026-09-05") ∷ [];
  reports = ("PROMISED", "2026-09-05") ∷ [];
}

pub promised_call-Reach : Steps.Reach (attached true) promised_call
unfolding Steps.run Steps.step Steps.receive SessionState-discrete transition_to allows signal_done
    set_outcome Steps.read_outcome
promised_call-Reach = run-Reach (attached true) wrap_up hung_up promised_call hang_up-Reach refl

returned-Reported_example : Reported true promised_call.reports promised_call.classified
returned-Reported_example = returned-Reported true promised_call promised_call-Reach refl
