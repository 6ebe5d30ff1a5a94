-- ===== src/Voice/Program.antt =====
-- The program of cmd/main.go, which plays a recorded conversation to the engine, and LoadProfile of
-- internal/config/config.go.
pub mod Conversation
use Prim.Native.String.{◌++◌ as ◌+s◌}
use vasuli.Prelude.{String, Bool, true, false, if◌then◌else◌}
use vasuli.Exec.{Exec, Result, ok, err, other, Error, pure, raise, ◌>>=◌, ◌>>◌}
use vasuli.World.{because}
use vasuli.Voice.Session.{new_session, attach}
use vasuli.Voice.Gateway.{AgentProfile}
use vasuli.Voice.Streaming.{Wire, AudioFile, start_session, send, run_test_sequence}

-- os.ReadFile at the path of a profile, and yaml.Unmarshal.
pub record Profiles : Type 0 where
  pub read_profile : String → Result String
  pub parse_yaml : String → Result AgentProfile

abbrev pub wrapped {ℓ} : {A : Type ℓ} → String → Result A → Result A
wrapped what (ok a) = ok a
wrapped what (err e) = err (other what)

abbrev pub parsed : Profiles → String → Result String → Result AgentProfile
parsed p name (ok text) = wrapped ("failed to parse profile " +s name) (p.parse_yaml text)
parsed p name (err e) = err (other ("failed to read the profile " +s name))

-- LoadProfile.
unfoldable pub load_profile : Profiles → String → Result AgentProfile
load_profile p name = parsed p name (p.read_profile name)

-- What the calls of main outside this program come to: grpc.NewClient, StreamEvents, os.Create, and
-- the two recordings.
pub record Setup : Type 0 where
  pub profiles : Profiles
  pub new_client : Result (Unit {0})
  pub stream_events : Result (Unit {0})
  pub output_file : Result (Unit {0})
  pub input_1 : AudioFile
  pub input_2 : AudioFile

abbrev pub checked {ℓ} : {S A : Type ℓ} → String → Result A → Exec S A
checked what r w = (wrapped what r, w)

-- sendStartSession.
unfoldable pub send_start_session : AgentProfile → Exec Wire Unit
send_start_session p = send "Failed to send START_SESSION" (start_session p.name p.system_prompt)

-- The stream cannot be attached to a session in another state.
abbrev pub attach_stream : Bool → Exec Wire Unit
attach_stream done = if done then pure tt else raise (other "Failed to attach stream to session")

-- main, up to its wait for DoneChan; an error is its logFatal.
unfoldable pub play_conversation : Setup → String → Exec Wire Unit
unfolding load_profile send_start_session run_test_sequence attach
play_conversation s profile_name = do
  profile ← checked "Failed to load profile" (load_profile s.profiles profile_name)
  checked "Failed to connect to inference engine" s.new_client
  checked "Failed to open stream" s.stream_events
  attach_stream (attach new_session).0
  send_start_session profile
  checked "failed to create output file" s.output_file
  run_test_sequence s.input_1 s.input_2
