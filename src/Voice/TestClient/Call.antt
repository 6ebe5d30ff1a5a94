-- ===== src/Voice/TestClient/Call.antt =====
-- The call that the test client makes.
use mathlib.Core.List.{append_assoc}
use vasuli.Prelude.{
  String, ◌≡◌, refl, sym, ap, ◌∙◌, ◌⊎◌, inl, inr, Option, none, some, List, [], ◌∷◌, ◌++◌,
}
use vasuli.Exec.{Exec, Result, ok, err, other, Error, attempt, proceed, ◌>>=◌, ◌>>◌}
use vasuli.Voice.Call.{Chunk}
use vasuli.Voice.Streaming.{Wire, call_start, call_end, send, stream_audio}
use vasuli.Voice.Streaming.Delivery.{
  Delivers, contents_of, file_errors, stream_audio-Delivers, raise-Delivers,
}
use vasuli.Voice.Program.{checked}
use vasuli.Voice.Program.Conversation.{failure}
use vasuli.Voice.TestClient.{
  ClientSetup, send_file, test_client, FromGateway, agent_audio, no_audio, closed_stream,
  recv_error, receive_audio,
}

-- END_SESSION was sent after all of the file, or nothing more was.
abbrev pub Last : Result (Unit {0}) → Wire → Wire → Type 0
Last answer streamed w' =
    ((answer ≡ ok tt) × (w'.sent ≡ streamed.sent ++ call_end ∷ [])) ⊎ (w'.sent ≡ streamed.sent)

-- The errors of the output file and of the recording.
abbrev pub client_errors : ClientSetup → List String
client_errors s = failure "Failed to create output file" s.output_file ++ file_errors s.input

-- START_SESSION, the file or a beginning of it, and, after all of it, END_SESSION unless that fails.
pub record Made (s : ClientSetup) (w' : Wire) (r : Result (Unit {0})) : Type 0 where
  pub started : Wire
  pub first : started.sent ≡ call_start s.sample_rate ∷ []
  pub streamed : Wire
  pub answer : Result (Unit {0})
  pub delivers : Delivers (client_errors s) (contents_of s.input) started streamed answer
  pub same_answer : r ≡ answer
  pub last : Last answer streamed w'

abbrev pub Called : ClientSetup → Wire → Result (Unit {0}) → Type 0
Called s w' r = ((w'.sent ≡ []) × (why : Error) × (r ≡ err why)) ⊎ Made s w' r

module _ (s : ClientSetup) where
  abbrev Calls : Exec Wire Unit → Wire → Type 0
  Calls m w = Called s (m w).1 (m w).0

  checked-Calls :
      (what : String) (r : Result (Unit {0})) (n : Exec Wire Unit) (w : Wire)
      → w.sent ≡ []
      → Calls n w
      → Calls (checked what r >> n) w
  unfolding ◌>>=◌
  checked-Calls what (ok a) n w e h = h
  checked-Calls what (err x) n w e h = inl (e, other what, refl)

  module _ (started : Wire) (first : started.sent ≡ call_start s.sample_rate ∷ []) where
    abbrev ending : Exec Wire Unit
    ending = attempt (send "Failed to send END_SESSION" call_end) >> (λ w. (ok tt, w))

    ending-Made :
        (w : Wire) (q : Result (Unit {0}))
        → Delivers (client_errors s) (contents_of s.input) started w q
        → Made s (proceed q (λ _. ending) w).1 (proceed q (λ _. ending) w).0
    unfolding ◌>>=◌ attempt send
    ending-Made w (err e) d = record {
      started = started;
      first = first;
      streamed = w;
      answer = err e;
      delivers = d;
      same_answer = refl;
      last = inr refl;
    }
    ending-Made w (ok done) d = with_failures w.failures
      where
        made : (w' : Wire) → Last (ok tt) w w' → Made s w' (ok tt)
        made w' l = record {
          started = started;
          first = first;
          streamed = w;
          answer = ok tt;
          delivers = d;
          same_answer = refl;
          last = l;
        }

        with_failures :
            (fs : List (Option String))
            → Made s (ending (record w { failures = fs })).1 (ending (record w { failures = fs })).0
        with_failures [] = made _ (inl (refl, refl))
        with_failures (none ∷ fs) = made _ (inl (refl, refl))
        with_failures (some cause ∷ fs) = made _ (inr refl)

    -- What follows START_SESSION.
    rest-Made :
        (o : Result (Unit {0}))
        → s.output_file ≡ o
        → Made s
            ((checked "Failed to create output file" o >> send_file s.input) started).1
            ((checked "Failed to create output file" o >> send_file s.input) started).0
    unfolding ◌>>=◌
    rest-Made (ok done) q =
        ending-Made (stream_audio s.input started).1 (stream_audio s.input started).0
          (rw q (stream_audio-Delivers s.input started))
    rest-Made (err e) q = record {
      started = started;
      first = first;
      streamed = started;
      answer = err (other "Failed to create output file");
      delivers = rw q (
          raise-Delivers "Failed to create output file" (file_errors s.input) (contents_of s.input)
            started (cc));
      same_answer = refl;
      last = inr refl;
    }

  start-Calls :
      (w : Wire)
      → w.sent ≡ []
      → Calls
          (send "Failed to send START_SESSION" (call_start s.sample_rate)
            >> (checked "Failed to create output file" s.output_file >> send_file s.input))
          w
  unfolding ◌>>=◌ send
  start-Calls w e = with_failures w.failures
    where
      started : List (Option String) → Wire
      started fs = record { sent = w.sent ++ call_start s.sample_rate ∷ []; failures = fs }

      called :
          (fs : List (Option String))
          → Calls
              (checked "Failed to create output file" s.output_file >> send_file s.input)
              (started fs)
      called fs = inr (
          rest-Made (started fs) (ap (λ x. x ++ call_start s.sample_rate ∷ []) e) s.output_file
            refl)

      with_failures :
          (fs : List (Option String))
          → Calls
              (send "Failed to send START_SESSION" (call_start s.sample_rate)
                >> (checked "Failed to create output file" s.output_file >> send_file s.input))
              (record w { failures = fs })
      with_failures [] = called []
      with_failures (none ∷ fs) = called fs
      with_failures (some cause ∷ fs) = inl (e, other "Failed to send START_SESSION", refl)

  -- What the test client sends on a fresh stream: nothing, if it stops with an error before that;
  -- otherwise START_SESSION with the sample rate, then the file, complete and in order unless the
  -- client stops with an error, and after all of it END_SESSION unless that send fails.
  pub test_client-Called :
      (w : Wire) → w.sent ≡ [] → Called s (test_client s w).1 (test_client s w).0
  unfolding test_client
  test_client-Called w e =
      checked-Calls "Failed to connect to gateway" s.new_client _ w e
        (checked-Calls "Failed to open StreamAudio" s.stream _ w e (start-Calls w e))

-- The audio of the events up to the end of the stream.
unfoldable pub heard_back : List FromGateway → Chunk
heard_back [] = []
heard_back (closed_stream ∷ rs) = []
heard_back (recv_error cause ∷ rs) = []
heard_back (no_audio ∷ rs) = heard_back rs
heard_back (agent_audio d ∷ rs) = d ++ heard_back rs

-- The output file holds the agent's audio in order, or a beginning of it if a Write fails.
pub receive_audio-heard_back :
    (rs : List FromGateway) (fs : List (Option String))
    → (lost : Chunk) × (heard_back rs ≡ receive_audio rs fs ++ lost)
unfolding receive_audio heard_back
receive_audio-heard_back [] fs = ([], refl)
receive_audio-heard_back (closed_stream ∷ rs) fs = ([], refl)
receive_audio-heard_back (recv_error cause ∷ rs) fs = ([], refl)
receive_audio-heard_back (no_audio ∷ rs) fs = receive_audio-heard_back rs fs
receive_audio-heard_back (agent_audio d ∷ rs) [] =
    let (lost, e) = receive_audio-heard_back rs [] in
    (lost, ap (λ x. d ++ x) e ∙ sym (append_assoc d (receive_audio rs []) lost))
receive_audio-heard_back (agent_audio d ∷ rs) (none ∷ fs) =
    let (lost, e) = receive_audio-heard_back rs fs in
    (lost, ap (λ x. d ++ x) e ∙ sym (append_assoc d (receive_audio rs fs) lost))
receive_audio-heard_back (agent_audio d ∷ rs) (some cause ∷ fs) = (d ++ heard_back rs, refl)

-- While no Write fails it holds all of it.
pub receive_audio-all : (rs : List FromGateway) → receive_audio rs [] ≡ heard_back rs
unfolding receive_audio heard_back
receive_audio-all [] = refl
receive_audio-all (closed_stream ∷ rs) = refl
receive_audio-all (recv_error cause ∷ rs) = refl
receive_audio-all (no_audio ∷ rs) = receive_audio-all rs
receive_audio-all (agent_audio d ∷ rs) = ap (λ x. d ++ x) (receive_audio-all rs)
