-- ===== src/Voice/Program/Conversation.antt =====
-- What the engine gets of a recorded conversation.
use vasuli.Prelude.{
  true, String, ◌≡◌, refl, ap, ◌∙◌, ◌⊎◌, inl, inr, Option, none, some, List, [], ◌∷◌, ◌++◌,
}
use vasuli.Exec.{Exec, Result, ok, err, other, Error, ◌>>=◌, ◌>>◌}
use vasuli.Voice.Session.{attach, transition_to, allows, SessionState-discrete}
use vasuli.Voice.Call.{Chunk}
use vasuli.Voice.Gateway.{AgentProfile}
use vasuli.Voice.Streaming.{start_session, AudioFile, Wire, send, replicate, run_test_sequence}
use vasuli.Voice.Streaming.Causes.{is_among, failed_in}
use vasuli.Voice.Streaming.Delivery.{Delivers, contents_of, raise-Delivers, file_errors}
use vasuli.Voice.Streaming.Silence.{stream_silence-Delivers}
use vasuli.Voice.Streaming.Delivery.{bind-Delivers, stream_audio-Delivers}
use vasuli.Voice.Program.{Setup, checked, load_profile, send_start_session, play_conversation}

-- The recordings, each with the silence that closes it.
abbrev pub conversation : Setup → Chunk
conversation s =
    contents_of s.input_1 ++ (replicate 61740 0 ++ (contents_of s.input_2 ++ replicate 61740 0))

-- The errors of the recordings, in the order in which they are met.
abbrev pub recording_errors : Setup → List String
recording_errors s = file_errors s.input_1 ++ (file_errors s.input_2 ++ [])

-- The text of a call that failed.
abbrev pub failure {ℓ} : {A : Type ℓ} → String → Result A → List String
failure what (ok a) = []
failure what (err e) = what ∷ []

-- The calls before START_SESSION that failed.
abbrev pub setup_errors : Setup → String → List String
setup_errors s name =
    failure "Failed to load profile" (load_profile s.profiles name)
    ++ (failure "Failed to connect to inference engine" s.new_client
        ++ failure "Failed to open stream" s.stream_events)

abbrev pub audio_errors : Setup → List String
audio_errors s = failure "failed to create output file" s.output_file ++ recording_errors s

-- The engine was told the profile, and then got audio.
pub record Spoken (s : Setup) (name : String) (w w' : Wire) (r : Result (Unit {0})) : Type 0 where
  pub profile : AgentProfile
  pub loaded : load_profile s.profiles name ≡ ok profile
  pub set_up : setup_errors s name ≡ []
  pub started : Wire
  pub first : started.sent ≡ start_session profile.name profile.system_prompt ∷ []
  pub greeted : (w.failures ≡ started.failures) ⊎ (w.failures ≡ none ∷ started.failures)
  pub delivers : Delivers (audio_errors s) (conversation s) started w' r

-- Nothing was sent, and the program stopped with the error of a call that failed: one before
-- START_SESSION, or its send.
abbrev pub Silent : Setup → String → Wire → Wire → Result (Unit {0}) → Type 0
Silent s name w w' r =
    (w'.sent ≡ [])
    × (why : String) × (r ≡ err (other why))
    × ((is_among why (setup_errors s name) ≡ true) ⊎ (failed_in w.failures ≡ true))

abbrev pub Played : Setup → String → Wire → Wire → Result (Unit {0}) → Type 0
Played s name w w' r = Silent s name w w' r ⊎ Spoken s name w w' r

run_test_sequence-Delivers :
    (input_1 input_2 : AudioFile) (w : Wire)
    → Delivers
        (file_errors input_1 ++ (file_errors input_2 ++ []))
        (contents_of input_1 ++ (replicate 61740 0 ++ (contents_of input_2 ++ replicate 61740 0)))
        w
        (run_test_sequence input_1 input_2 w).1
        (run_test_sequence input_1 input_2 w).0
unfolding run_test_sequence
run_test_sequence-Delivers input_1 input_2 w =
    bind-Delivers (file_errors input_1) (file_errors input_2 ++ []) (contents_of input_1) _ _ _ w
      (stream_audio-Delivers input_1 w)
      (λ u.
        bind-Delivers [] (file_errors input_2 ++ []) (replicate 61740 0) _ _ _ u
          (stream_silence-Delivers 700 u)
          (λ v.
            bind-Delivers (file_errors input_2) [] (contents_of input_2) (replicate 61740 0) _ _ v
              (stream_audio-Delivers input_2 v) (stream_silence-Delivers 700)))

module _ (s : Setup) (name : String) where
  abbrev Plays : Exec Wire Unit → Wire → Type 0
  Plays m w = Played s name w (m w).1 (m w).0

  checked-Plays :
      {A : Type 0} (what : String) (r : Result A) (n : A → Exec Wire Unit) (w : Wire)
      → w.sent ≡ []
      → ((x : Error) → r ≡ err x → is_among what (setup_errors s name) ≡ true)
      → ((a : A) → r ≡ ok a → Plays (n a) w)
      → Plays (checked what r >>= n) w
  unfolding ◌>>=◌
  checked-Plays what (ok a) n w e met h = h a refl
  checked-Plays what (err x) n w e met h = inl (e, what, refl, inl (met x refl))

  abbrev the_rest : Result (Unit {0}) → Exec Wire Unit
  the_rest output_file =
      checked "failed to create output file" output_file >> run_test_sequence s.input_1 s.input_2

  the_rest-Delivers :
      (r : Result (Unit {0})) (w : Wire)
      → Delivers
          (failure "failed to create output file" r ++ recording_errors s)
          (conversation s)
          w
          (the_rest r w).1
          (the_rest r w).0
  unfolding ◌>>=◌
  the_rest-Delivers (ok tt) w = run_test_sequence-Delivers s.input_1 s.input_2 w
  the_rest-Delivers (err e) w =
      raise-Delivers "failed to create output file" (recording_errors s) (conversation s) w (cc)

  speak-Plays :
      (p : AgentProfile) (w : Wire)
      → load_profile s.profiles name ≡ ok p
      → setup_errors s name ≡ []
      → w.sent ≡ []
      → Plays (send_start_session p >> the_rest s.output_file) w
  unfolding ◌>>=◌ send_start_session send
  speak-Plays p w l none_met e = with_failures w.failures
    where
      spoken :
          (fs : List (Option String)) (u : Wire)
          → u.sent ≡ w.sent ++ start_session p.name p.system_prompt ∷ []
          → (fs ≡ u.failures) ⊎ (fs ≡ none ∷ u.failures)
          → Played s name
              (record w { failures = fs })
              (the_rest s.output_file u).1
              (the_rest s.output_file u).0
      spoken fs u h g = inr (record {
        profile = p;
        loaded = l;
        set_up = none_met;
        started = u;
        first = h ∙ ap (λ x. x ++ start_session p.name p.system_prompt ∷ []) e;
        greeted = g;
        delivers = the_rest-Delivers s.output_file u;
      })

      with_failures :
          (fs : List (Option String))
          → Plays (send_start_session p >> the_rest s.output_file) (record w { failures = fs })
      with_failures [] =
          spoken []
            (record { sent = w.sent ++ start_session p.name p.system_prompt ∷ []; failures = [] })
            refl (inl refl)
      with_failures (none ∷ fs) =
          spoken (none ∷ fs)
            (record { sent = w.sent ++ start_session p.name p.system_prompt ∷ []; failures = fs })
            refl (inr refl)
      with_failures (some cause ∷ fs) = inl (e, "Failed to send START_SESSION", refl, inr refl)

  -- What the program says to the engine on a fresh stream: either it stops before it has sent anything,
  -- with the text of a call that failed (the profile, the connection, the stream) or because a send
  -- fails; or none of these failed and it sends the name and the prompt of the profile it was asked
  -- for and then only audio: the two recordings, each followed by 700 ms of silence, in order. It ends
  -- well, with all of it sent, exactly if the output file was created, both recordings were read to
  -- their end and none of its sends failed; otherwise a beginning of the audio was sent, and the error
  -- is the text of the output file or a recording that failed, or comes with a send that failed; no
  -- loop is cut short.
  pub play_conversation-Played :
      (w : Wire)
      → w.sent ≡ []
      → Played s name w (play_conversation s name w).1 (play_conversation s name w).0
  unfolding play_conversation attach transition_to allows SessionState-discrete ◌>>=◌
  play_conversation-Played w e =
      checked-Plays "Failed to load profile" (load_profile s.profiles name) _ w e (λ x q. rw q refl)
        (λ p l.
          checked-Plays "Failed to connect to inference engine" s.new_client _ w e
            (λ x q. rw (l, q) refl)
            (λ _ c.
              checked-Plays "Failed to open stream" s.stream_events _ w e (λ x q. rw (l, c, q) refl)
                (λ _ o. speak-Plays p w l (rw (l, c, o) refl) e)))
