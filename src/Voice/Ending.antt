-- ===== src/Voice/Ending.antt =====
-- The end of the inference stream and the state of the session.
use vasuli.Prelude.{◌≡◌, Bool, true, some, arith}
use vasuli.Voice.Session.{
  SessionState, SessionState-discrete, Session, active, responding, terminated, allows,
  transition_to, signal_done, set_outcome,
}
use vasuli.Voice.Call.{Call, attached, eof}
use vasuli.Voice.Steps
use vasuli.Voice.Control.{Reach-Control, attached-Control, is_live}

transition_to-terminated :
    (t : SessionState) (s : Session)
    → s.state ≡ terminated
    → (transition_to t s).1.state ≡ terminated
unfolding transition_to allows
transition_to-terminated t s e = ground (arith, e)

step-terminated :
    (a : Steps.Action) (c c' : Call)
    → Steps.step a c ≡ some c'
    → c.session.state ≡ terminated
    → c'.session.state ≡ terminated
unfolding Steps.step Steps.receive signal_done set_outcome
step-terminated a c c' e t = ground (
  arith,
  transition_to-terminated terminated c.session,
  transition_to-terminated active c.session,
  transition_to-terminated responding c.session,
)

Reach-terminated :
    {c c' : Call} → Steps.Reach c c' → c.session.state ≡ terminated → c'.session.state ≡ terminated
Reach-terminated Steps.here t = t
Reach-terminated (Steps.later {c} {c'} a r e) t = step-terminated a c c' e (Reach-terminated r t)

eof-terminated :
    (c c' : Call)
    → is_live c.session.state ≡ true
    → Steps.step (Steps.pump_receive eof) c ≡ some c'
    → c'.session.state ≡ terminated
unfolding Steps.step Steps.receive transition_to allows SessionState-discrete
eof-terminated c c' v e = ground arith

-- When the inference engine closes its stream, the session is TERMINATED, and so it is in every later
-- state of the call: no audio that is still in hand and no callback of the idle timer, even one that
-- had already seen the session respond, brings it back to life.
pub eof_is_final :
    (assigned : Bool) (c c' c'' : Call)
    → Steps.Reach (attached assigned) c
    → Steps.step (Steps.pump_receive eof) c ≡ some c'
    → Steps.Reach c' c''
    → c''.session.state ≡ terminated
eof_is_final assigned c c' c'' r e s =
    Reach-terminated s (eof-terminated c c' (Reach-Control (attached-Control assigned) r).running e)
