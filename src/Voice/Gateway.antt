-- ===== src/Voice/Gateway.antt =====
-- Server of internal/gateway/server.go: resolveProfile, and StreamAudio up to the start of its
-- goroutines.
use vasuli.Prelude.{String, Bool, true, false, if◌then◌else◌}
use vasuli.World.{World}
use vasuli.Voice.Session.{Session, new_session, attach}
use vasuli.Voice.Call.{Call, started}
use vasuli.Voice.Recovery.{
  Delivery, Assigned, context, no_pending_session, assign_failed, client_assign,
}

-- config.AgentProfile.
pub record AgentProfile : Type 0 where
  pub name : String
  pub description : String
  pub system_prompt : String

-- `recovery` says that the server has a RecoveryClient.
pub record Server : Type 0 where
  pub profile : AgentProfile
  pub recovery : Bool

abbrev pub profile_for : Server → Assigned → AgentProfile × Bool
profile_for s (context c) = (
  record {
    name = s.profile.name;
    description = s.profile.description;
    system_prompt = c.system_prompt;
  },
  true,
)
profile_for s no_pending_session = (s.profile, false)
profile_for s (assign_failed cause) = (s.profile, false)

unfoldable pub resolve_profile : Server → Delivery → String → World → (AgentProfile × Bool) × World
resolve_profile s d session_id w =
    if s.recovery
    then (let (a, w') = client_assign d session_id w in (profile_for s a, w'))
    else ((s.profile, false), w)

-- The first event of the caller's stream.
pub data First : Type 0 where
  unreceived : String → First
  start_session : String → First
  other_event : First

-- What StreamAudio has come to when its goroutines start: an error that it returns, or the call that
-- runs under the engine's profile.
pub data Opening : Type 0 where
  refused : String → Opening
  opened : AgentProfile → Call → Opening

-- `ok` says that the first Send on the inference stream succeeded.
abbrev pub send_start : Bool → AgentProfile → Bool → Bool × Session → Opening
send_start ok profile assigned (false, s) = refused "gateway: failed to attach the session"
send_start false profile assigned (true, s) =
    refused "gateway: failed to send START_SESSION to inference engine"
send_start true profile assigned (true, s) = opened profile (started s assigned)

-- `engine` says that StreamEvents succeeded.
unfoldable pub open_call : Server → First → Bool → Delivery → Bool → World → Opening × World
unfolding resolve_profile
open_call s (unreceived cause) engine d ok w =
    (refused "gateway: failed to receive initial event", w)
open_call s other_event engine d ok w =
    (refused "gateway: expected START_SESSION as first event", w)
open_call s (start_session session_id) false d ok w =
    (refused "gateway: failed to open agent stream", w)
open_call s (start_session session_id) true d ok w =
    let ((profile, assigned), w') = resolve_profile s d session_id w in
    (send_start ok profile assigned (attach new_session), w')
