-- ===== src/Examples/Streaming.antt =====
-- A recorded conversation played to the engine.
use vasuli.Prelude.{refl, none, some, [], ◌∷◌}
use vasuli.Exec.{ok}
use vasuli.Voice.Gateway.{AgentProfile}
use vasuli.Voice.Streaming.{Wire, more, at_eof, opened}
use vasuli.Voice.Program.{Setup, play_conversation}
use vasuli.Voice.Program.Conversation.{Played, play_conversation-Played}

abbrev receptionist : AgentProfile
receptionist = record { name = "Asha"; description = ""; system_prompt = "Greet the caller." }

-- A recording of six bytes that is read in two parts, and one of two bytes.
abbrev recorded : Setup
recorded = record {
  profiles = record {
    read_profile = λ name. ok "agent_name: Asha";
    parse_yaml = λ text. ok receptionist;
  };
  new_client = ok tt;
  stream_events = ok tt;
  output_file = ok tt;
  input_1 = opened ((82 ∷ 73 ∷ 70 ∷ 70 ∷ [], more) ∷ (1 ∷ 2 ∷ [], at_eof) ∷ []);
  input_2 = opened ((3 ∷ 4 ∷ [], more) ∷ []);
}

-- The third message after START_SESSION fails.
abbrev unsteady : Wire
unsteady = record { sent = []; failures = none ∷ none ∷ none ∷ some "stream closed" ∷ [] }

play_conversation-Played_example :
    Played recorded "receptionist" unsteady
      (play_conversation recorded "receptionist" unsteady).1
      (play_conversation recorded "receptionist" unsteady).0
play_conversation-Played_example = play_conversation-Played recorded "receptionist" unsteady refl
