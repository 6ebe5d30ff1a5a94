-- ===== src/Voice/TestClient.antt =====
-- The manual test client of cmd/gateway-test-client/main.go: what it sends to the gateway, and what it
-- writes of the audio that it gets back.
pub mod Call
use vasuli.Prelude.{
  ℕ, String, ◌≡◌, refl, sym, ap, ◌∙◌, ◌⊎◌, inl, inr, Option, none, some, List, [], ◌∷◌, ◌++◌,
}
use vasuli.Exec.{Exec, Result, ok, err, other, Error, attempt, proceed, ◌>>=◌, ◌>>◌}
use vasuli.Voice.Call.{Chunk}
use vasuli.Voice.Streaming.{Wire, AudioFile, call_start, call_end, send, stream_audio}
use vasuli.Voice.Streaming.Delivery.{Delivers, contents_of, stream_audio-Delivers}
use vasuli.Voice.Program.{checked}

pub record ClientSetup : Type 0 where
  pub new_client : Result (Unit {0})
  pub stream : Result (Unit {0})
  pub output_file : Result (Unit {0})
  pub input : AudioFile
  pub sample_rate : ℕ

-- streamAudioFile and what follows it; a failure to send END_SESSION is only logged.
abbrev pub send_file : AudioFile → Exec Wire Unit
send_file f = do
  stream_audio f
  attempt (send "Failed to send END_SESSION" call_end)
  λ w. (ok tt, w)

-- main up to its wait for the receiving goroutine; an error is its log.Fatalf.
unfoldable pub test_client : ClientSetup → Exec Wire Unit
unfolding send stream_audio attempt
test_client s = do
  checked "Failed to connect to gateway" s.new_client
  checked "Failed to open StreamAudio" s.stream
  send "Failed to send START_SESSION" (call_start s.sample_rate)
  checked "Failed to create output file" s.output_file
  send_file s.input

-- What stream.Recv returns on the gateway's stream.
pub data FromGateway : Type 0 where
  agent_audio : Chunk → FromGateway
  no_audio closed_stream : FromGateway
  recv_error : String → FromGateway

abbrev pub write_chunk : Chunk → Option String → Chunk → Chunk
write_chunk d none rest = d ++ rest
write_chunk d (some cause) rest = []

-- The receiving goroutine: the bytes that it writes, one entry of the second list for each Write that
-- was made, `none` for the rest.
unfoldable pub receive_audio : List FromGateway → List (Option String) → Chunk
receive_audio [] fs = []
receive_audio (closed_stream ∷ rs) fs = []
receive_audio (recv_error cause ∷ rs) fs = []
receive_audio (no_audio ∷ rs) fs = receive_audio rs fs
receive_audio (agent_audio d ∷ rs) [] = d ++ receive_audio rs []
receive_audio (agent_audio d ∷ rs) (f ∷ fs) = write_chunk d f (receive_audio rs fs)
