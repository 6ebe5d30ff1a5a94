-- ===== src/Examples/Startup.antt =====
-- A .env file: a comment, an exported line, a second assignment, and a line without `=`.
use vasuli.Prelude.{◌≡◌, refl, none, some, List, [], ◌∷◌}
use vasuli.Startup.DotEnv.{
  Text, text_eq, trim, trim_left, trim_right, trim_prefix, behind, cut, parse_line, Env, lookup_env,
  set_in, has_nul, set_env, handle_line, failed, expected_pair, load_lines, scanned, load_dot_env,
}
use vasuli.Store.Opening.{up_to_date}
use vasuli.Startup.Main.{Host, Flags, key_secret_variable, start_service}
use vasuli.Startup.Main.Settings.{Started, start_service-Started}
use vasuli.Examples.Data.{two_customers}
use vasuli.Startup.Precedence.{FirstWins, load_dot_env-FirstWins}

abbrev env_lines : List Text
env_lines =
    (b'#' ∷ b' ' ∷ b'k' ∷ [])
    ∷ (b'e' ∷ b'x' ∷ b'p' ∷ b'o' ∷ b'r' ∷ b't' ∷ b' ' ∷ b'A' ∷ b' ' ∷ b'=' ∷ b'"' ∷ b'1' ∷ b'"'
        ∷ [])
    ∷ (b'A' ∷ b'=' ∷ b'2' ∷ [])
    ∷ (b'B' ∷ b'=' ∷ b'3' ∷ [])
    ∷ (b'C' ∷ [])
    ∷ []

abbrev shell : Env
shell = (b'B' ∷ [], b'9' ∷ []) ∷ []

-- B keeps its value, A has the first one, and the fifth line is refused.
env_lines-run :
    load_dot_env (scanned env_lines none) shell
    ≡ (failed 5 expected_pair, (b'B' ∷ [], b'9' ∷ []) ∷ (b'A' ∷ [], b'1' ∷ []) ∷ [])
unfolding load_dot_env load_lines handle_line parse_line trim trim_left trim_right trim_prefix
    behind cut lookup_env set_env set_in has_nul text_eq
env_lines-run = refl

load_dot_env-FirstWins_example :
    FirstWins 1 env_lines shell
      (load_dot_env (scanned env_lines none) shell).1
      (load_dot_env (scanned env_lines none) shell).0
load_dot_env-FirstWins_example = load_dot_env-FirstWins (scanned env_lines none) shell

-- The key id comes from the command line and its secret from the shell.
abbrev host : Host
host = record {
  env = (key_secret_variable, b's' ∷ []) ∷ [];
  dot_env = scanned ((b'B' ∷ b'=' ∷ b'3' ∷ []) ∷ []) none;
  string_of = λ t. elim t [ [] ↦ "" | c ∷ cs ↦ "s" ];
}

abbrev flags : Flags
flags = record {
  port = none;
  razorpay_key_id = some "rzp_test_1";
  razorpay_key_secret = none;
  razorpay_webhook_secret = none;
}

start_service-Started_example :
    Started host flags
      (record { version = up_to_date; world = two_customers })
      (start_service host flags (record { version = up_to_date; world = two_customers })).0
      (start_service host flags (record { version = up_to_date; world = two_customers })).1
start_service-Started_example =
    start_service-Started host flags (record { version = up_to_date; world = two_customers })
