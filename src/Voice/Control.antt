-- ===== src/Voice/Control.antt =====
-- What the goroutines of a call can rely on: where each stands when another has got somewhere.
use vasuli.Prelude.{
  ℕ, zero, suc, subst, Bool-cases, ◌≡◌, ◌⊎◌, inl, inr, Bool, true, false, not, ◌&&◌, ◌||◌, some,
  arith,
}
use vasuli.Voice.Session.{
  SessionState, SessionState-discrete, attach, active, responding, terminated, state_eq, allows,
  transition_to, signal_done, set_outcome,
}
use vasuli.Voice.Call.{
  Call, attached, Pump, stopping, closing, stopped, Relay, exited, Outbound, drained, Main,
  selecting, collecting, half_closing, awaiting, reading, joining, reporting, returned,
}
use vasuli.Voice.Steps

-- The states that a session has once its stream is attached and before it is processing.
abbrev pub is_live : SessionState → Bool
is_live active = true
is_live responding = true
is_live terminated = true
is_live _ = false

abbrev is_terminated : SessionState → Bool
is_terminated terminated = true
is_terminated _ = false

abbrev pub has_left : Pump → Bool
has_left stopping = true
has_left closing = true
has_left stopped = true
has_left _ = false

abbrev pub has_signalled : Pump → Bool
has_signalled closing = true
has_signalled stopped = true
has_signalled _ = false

abbrev pub has_stopped : Pump → Bool
has_stopped stopped = true
has_stopped _ = false

abbrev pub has_exited : Relay → Bool
has_exited exited = true
has_exited _ = false

-- The gateway has received the relay's error.
abbrev pub has_received : Main → Bool
has_received (collecting true) = true
has_received half_closing = true
has_received awaiting = true
has_received reading = true
has_received _ = false

-- The gateway can still receive it.
abbrev pub has_not_received : Main → Bool
has_not_received selecting = true
has_not_received (collecting false) = true
has_not_received _ = false

abbrev pub has_cancelled : Main → Bool
has_cancelled (joining o p) = true
has_cancelled (reporting o p) = true
has_cancelled returned = true
has_cancelled _ = false

abbrev pub has_joined : Main → Bool
has_joined (reporting o p) = true
has_joined returned = true
has_joined _ = false

abbrev pub is_drained : Outbound → Bool
is_drained (drained _) = true
is_drained _ = false

pub record Control (c : Call) : Type 0 where
  pub running : is_live c.session.state ≡ true
  pub left : (not (is_terminated c.session.state) || has_left c.pump) ≡ true
  pub done : c.session.done_closed ≡ has_signalled c.pump
  pub audio : c.audio_closed ≡ has_stopped c.pump
  pub received : (not (has_received c.main) || (has_exited c.relay && not c.inbound_err)) ≡ true
  pub published : (not c.inbound_err || has_exited c.relay) ≡ true
  pub waiting : (not (has_not_received c.main && has_exited c.relay) || c.inbound_err) ≡ true
  pub half : (not c.half_closed || has_exited c.relay) ≡ true
  pub cancel : c.cancelled ≡ has_cancelled c.main
  pub join : (not (has_joined c.main) || is_drained c.outbound) ≡ true
  pub drain : (not (is_drained c.outbound) || c.audio_closed) ≡ true

-- The timer's callback and its look at the state change nothing of this.
timer-Control :
    (fired moving : ℕ) (c : Call)
    → Control c
    → Control (record c { fired = fired; moving = moving })
timer-Control fired moving c v = record {
  running = v.running;
  left = v.left;
  done = v.done;
  audio = v.audio;
  received = v.received;
  published = v.published;
  waiting = v.waiting;
  half = v.half;
  cancel = v.cancel;
  join = v.join;
  drain = v.drain;
}

step_look-Control : (n : ℕ) (c c' : Call) → Steps.step_look n c ≡ some c' → Control c → Control c'
unfolding Steps.step_look
step_look-Control zero c c' e v = absurd (cc)
step_look-Control (suc n) c c' e v = elim (Bool-cases (state_eq c.session.state responding)) [
  | inl t ↦ subst Control (cc (rw t at e)) (timer-Control n (suc c.moving) c v)
  | inr f ↦ subst Control (cc (rw f at e)) (timer-Control n c.moving c v)
]

pub step-Control :
    (a : Steps.Action) (c c' : Call) → Steps.step a c ≡ some c' → Control c → Control c'
unfolding Steps.step Steps.receive SessionState-discrete transition_to allows signal_done
    set_outcome Steps.collect Steps.read_outcome
step-Control (Steps.pump_receive i) c c' e v = ground arith
step-Control Steps.pump_answer c c' e v = ground arith
step-Control Steps.pump_push c c' e v = ground arith
step-Control Steps.pump_signal c c' e v = ground arith
step-Control Steps.pump_close c c' e v = ground arith
step-Control Steps.idle_fire c c' e v = ground arith
step-Control Steps.idle_look c c' e v = step_look-Control c.fired c c' e v
step-Control Steps.idle_move c c' e v = ground arith
step-Control (Steps.relay_receive x) c c' e v = ground arith
step-Control (Steps.relay_send ok) c c' e v = ground arith
step-Control Steps.relay_publish c c' e v = ground arith
step-Control (Steps.outbound_send ok) c c' e v = ground arith
step-Control Steps.outbound_stop c c' e v = ground arith
step-Control Steps.main_done c c' e v = ground arith
step-Control Steps.main_inbound c c' e v = ground arith
step-Control Steps.main_collect c c' e v = ground arith
step-Control (Steps.main_half_close ok) c c' e v = ground arith
step-Control (Steps.main_wake why) c c' e v = ground arith
step-Control Steps.main_read c c' e v = ground arith
step-Control Steps.main_cancel c c' e v = ground arith
step-Control Steps.main_join c c' e v = ground arith
step-Control Steps.main_report c c' e v = ground arith

pub attached-Control : (assigned : Bool) → Control (attached assigned)
unfolding attach transition_to allows SessionState-discrete
attached-Control assigned = ground arith

pub Reach-Control : {start c : Call} → Control start → Steps.Reach start c → Control c
Reach-Control v Steps.here = v
Reach-Control v (Steps.later {c} {c'} a r e) = step-Control a c c' e (Reach-Control v r)

-- One sender at a time: when StreamAudio is about to half-close the inference stream, and ever after
-- CloseSend has been called, the goroutine that relays the caller's audio has exited, so that no
-- SendAudio is in flight or will come, whatever order the goroutines run in.
pub half_close-alone :
    (assigned : Bool) (c : Call)
    → Steps.Reach (attached assigned) c
    → (c.main ≡ half_closing) ⊎ (c.half_closed ≡ true)
    → c.relay ≡ exited
half_close-alone assigned c r h =
    let v = Reach-Control (attached-Control assigned) r in ground (arith, v.received, v.half, h)
