-- ===== src/Voice/Streaming.antt =====
-- What session.go sends on the inference stream: StreamAudio, StreamUtterance, StreamSilence and
-- SendAudio; and the program of cmd/main.go that sends a recorded conversation.
pub mod Causes
pub mod Delivery
pub mod Silence
use vasuli.Prelude.{
  ℕ, zero, suc, ◌+◌, ◌-◌, ◌*◌, ◌/◌, String, Bool, true, false, Option, none, some, List, [], ◌∷◌,
  ◌++◌, length, take, drop, ltb, if◌then◌else◌,
}
use vasuli.Exec.{Exec, Result, ok, err, other, pure, raise, ◌>>=◌, ◌>>◌}
use vasuli.Voice.Call.{Chunk}

-- The last two are those of the test client to the gateway: START_SESSION with the sample rate, and
-- END_SESSION.
pub data Message : Type 0 where
  start_session : String → String → Message
  audio : Chunk → Message
  end_of_utterance : Message
  call_start : ℕ → Message
  call_end : Message

-- The outbound side of the stream: what was sent, and the failures of Send to come; when the list is
-- used up no Send fails.
pub record Wire : Type 0 where
  pub sent : List Message
  pub failures : List (Option String)

unfoldable pub send : String → Message → Exec Wire Unit
send what m w = elim w.failures [
  | [] ↦ (ok tt, record w { sent = w.sent ++ m ∷ [] })
  | none ∷ rest ↦ (ok tt, record { sent = w.sent ++ m ∷ []; failures = rest })
  | some cause ∷ rest ↦ (err (other what), record w { failures = rest })
]

-- What one Read of the file returns beside its bytes.
pub data ReadEnd : Type 0 where
  more at_eof : ReadEnd
  broken : String → ReadEnd

-- os.Open, and the reads in their order; a Read after the last one is at the end of the file.
pub data AudioFile : Type 0 where
  unopened : String → AudioFile
  opened : List (Chunk × ReadEnd) → AudioFile

-- A chunk is sent if Read returned bytes.
abbrev pub send_read : Chunk → Exec Wire Unit
send_read [] = pure tt
send_read (b ∷ bs) = send "audio send error" (audio (b ∷ bs))

-- The loop of StreamAudio, and of streamAudioFile in cmd/gateway-test-client/main.go.
unfoldable pub stream_reads : List (Chunk × ReadEnd) → Exec Wire Unit
unfolding send
stream_reads [] = pure tt
stream_reads ((d, at_eof) ∷ rs) = send_read d
stream_reads ((d, broken cause) ∷ rs) = do send_read d; raise (other "file read error")
stream_reads ((d, more) ∷ rs) = do send_read d; stream_reads rs

unfoldable pub stream_audio : AudioFile → Exec Wire Unit
unfolding stream_reads
stream_audio (unopened cause) = raise (other "failed to open audio file")
stream_audio (opened rs) = stream_reads rs

unfoldable pub stream_utterance : AudioFile → Exec Wire Unit
unfolding stream_audio send
stream_utterance f = do stream_audio f; send "END_OF_UTTERANCE send error" end_of_utterance

abbrev pub chunk_size : ℕ
chunk_size = 4096

unfoldable pub replicate : ℕ → ℕ → Chunk
replicate zero b = []
replicate (suc n) b = b ∷ replicate n b

-- silence[offset:end].
abbrev pub slice : ℕ → ℕ → Chunk → Chunk
slice from to bs = take (to - from) (drop from bs)

abbrev pub min : ℕ → ℕ → ℕ
min a b = if ltb b a then b else a

abbrev pub after_send :
    (Wire → Option (Result (Unit {0}) × Wire))
    → Result (Unit {0}) × Wire
    → Option (Result (Unit {0}) × Wire)
after_send rest (ok tt, w) = rest w
after_send rest (err e, w) = some (err e, w)

-- The loop of StreamSilence; `none` means that the fuel ran out.
unfoldable pub silence_loop : ℕ → ℕ → Chunk → Wire → Option (Result (Unit {0}) × Wire)
unfolding send
silence_loop zero offset silence w = none
silence_loop (suc fuel) offset silence w =
    let rest = after_send (silence_loop fuel (offset + chunk_size) silence) (
      send "silence send error"
        (audio (slice offset (min (offset + chunk_size) (length silence)) silence)) w) in
    if ltb offset (length silence) then rest else some (ok tt, w)

abbrev pub out_of_fuel : String
out_of_fuel = "out of fuel"

abbrev pub loop_ended : Wire → Option (Result (Unit {0}) × Wire) → Result (Unit {0}) × Wire
loop_ended w none = (err (other out_of_fuel), w)
loop_ended w (some r) = r

-- Two bytes at 44100 Hz; one round more than there are bytes is more than enough.
abbrev pub silence_bytes : ℕ → ℕ
silence_bytes duration_ms = 44100 * 2 * duration_ms / 1000

unfoldable pub stream_silence : ℕ → Exec Wire Unit
unfolding silence_loop replicate
stream_silence duration_ms w =
    let total = silence_bytes duration_ms in
    loop_ended w (silence_loop (suc total) 0 (replicate total 0) w)

-- runTestSequence.
unfoldable pub run_test_sequence : AudioFile → AudioFile → Exec Wire Unit
unfolding stream_audio stream_silence
run_test_sequence input_1 input_2 = do
  stream_audio input_1
  stream_silence 700
  stream_audio input_2
  stream_silence 700
