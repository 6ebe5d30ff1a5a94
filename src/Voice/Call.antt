-- ===== src/Voice/Call.antt =====
-- One call of StreamAudio in internal/gateway/server.go: what its goroutines share, where each stands,
-- and what reaches them from outside.
use vasuli.Prelude.{ℕ, String, Bool, false, List, []}
use vasuli.Voice.Session.{Session, new_session, attach}

abbrev pub Chunk : Type 0
Chunk = List ℕ

-- What stream.Recv returns on the inference stream; `gone` is any error but io.EOF.
pub data Incoming : Type 0 where
  classification : String → String → Incoming
  audio : Chunk → Incoming
  ignored eof gone : Incoming

-- What stream.Recv returns on the caller's stream.
pub data FromCaller : Type 0 where
  speech : Chunk → FromCaller
  end_session unknown lost : FromCaller

-- readPump, with handleAudioEvent and the deferred calls, which run in the order of the last three.
pub data Pump : Type 0 where
  receiving : Pump
  answering : Chunk → Pump
  pushing : Chunk → Pump
  stopping closing stopped : Pump

-- The goroutine that relays the caller's audio; `publishing` is the send on inboundErr.
pub data Relay : Type 0 where
  listening : Relay
  sending : Chunk → Relay
  publishing exited : Relay

-- The goroutine that sends the agent's audio to the caller, with its flag sendFailed; `drained` when
-- its loop over the channel has ended.
pub data Outbound : Type 0 where
  draining : Bool → Outbound
  drained : Bool → Outbound

-- StreamAudio from its select on, with collectOutcome.
pub data Main : Type 0 where
  selecting : Main
  collecting : Bool → Main
  half_closing awaiting reading : Main
  cancelling joining reporting : String → String → Main
  returned : Main

-- `buffer` is AgentAudioChan, whose capacity is 100, and `inbound_err` is inboundErr, whose capacity is
-- 1. `armed` says that the idle timer runs; `fired` and `moving` count its callbacks before and after
-- their look at the state. The last four fields only record what has happened: the audio that the
-- engine delivered, the audio that reached the caller, the outcomes that the engine delivered, newest
-- first, and the calls of RecoveryClient.EndSession, newest first.
pub record Call : Type 0 where
  pub session : Session
  pub pump : Pump
  pub relay : Relay
  pub outbound : Outbound
  pub main : Main
  pub buffer : List Chunk
  pub audio_closed : Bool
  pub inbound_err : Bool
  pub armed : Bool
  pub fired : ℕ
  pub moving : ℕ
  pub half_closed : Bool
  pub cancelled : Bool
  pub assigned : Bool
  pub delivered : List Chunk
  pub played : List Chunk
  pub classified : List (String × String)
  pub reports : List (String × String)

-- The state in which `go sess.Run()` and the two relays start.
abbrev pub started : Session → Bool → Call
started session assigned = record {
  session = session;
  pump = receiving;
  relay = listening;
  outbound = draining false;
  main = selecting;
  buffer = [];
  audio_closed = false;
  inbound_err = false;
  armed = false;
  fired = 0;
  moving = 0;
  half_closed = false;
  cancelled = false;
  assigned = assigned;
  delivered = [];
  played = [];
  classified = [];
  reports = [];
}

-- The call that starts to run: its session is attached to the engine.
abbrev pub attached : Bool → Call
attached assigned = started (attach new_session).1 assigned
