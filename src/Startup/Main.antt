-- ===== src/Startup/Main.antt =====
-- main of recovery-orchestrator/cmd/main.go, up to ListenAndServe. NewManager fails only on a template
-- that does not parse, and its template is a constant.
pub mod Settings
use vasuli.Prelude.{String, Option, none, some, [], ◌∷◌}
use vasuli.Exec.{Exec, Result, ok, err, other, attempt, pure, raise, ◌>>=◌, ◌>>◌}
use vasuli.Store.Opening.{File, open_file}
use vasuli.Razorpay.Clients.{Choice, stub, live, refused_to_start, build_razorpay_client}
use vasuli.Startup.DotEnv.{
  Text, Env, lookup_env, Outcome, loaded, unread, failed, EnvFile, load_dot_env,
}

-- The environment of the process, the .env file, and the string of a list of code points.
pub record Host : Type 0 where
  pub env : Env
  pub dot_env : EnvFile
  pub string_of : Text → String

-- The flags that the command line gives.
pub record Flags : Type 0 where
  pub port : Option String
  pub razorpay_key_id : Option String
  pub razorpay_key_secret : Option String
  pub razorpay_webhook_secret : Option String

abbrev pub key_id_variable : Text
key_id_variable =
    b'R' ∷ b'A' ∷ b'Z' ∷ b'O' ∷ b'R' ∷ b'P' ∷ b'A' ∷ b'Y' ∷ b'_' ∷ b'K' ∷ b'E' ∷ b'Y' ∷ b'_' ∷ b'I'
    ∷ b'D' ∷ []

abbrev pub key_secret_variable : Text
key_secret_variable =
    b'R' ∷ b'A' ∷ b'Z' ∷ b'O' ∷ b'R' ∷ b'P' ∷ b'A' ∷ b'Y' ∷ b'_' ∷ b'K' ∷ b'E' ∷ b'Y' ∷ b'_' ∷ b'S'
    ∷ b'E' ∷ b'C' ∷ b'R' ∷ b'E' ∷ b'T' ∷ []

abbrev pub webhook_secret_variable : Text
webhook_secret_variable =
    b'R' ∷ b'A' ∷ b'Z' ∷ b'O' ∷ b'R' ∷ b'P' ∷ b'A' ∷ b'Y' ∷ b'_' ∷ b'W' ∷ b'E' ∷ b'B' ∷ b'H' ∷ b'O'
    ∷ b'O' ∷ b'K' ∷ b'_' ∷ b'S' ∷ b'E' ∷ b'C' ∷ b'R' ∷ b'E' ∷ b'T' ∷ []

abbrev pub or_empty : (Text → String) → Option Text → String
or_empty string_of none = ""
or_empty string_of (some v) = string_of v

-- os.Getenv.
abbrev pub getenv : (Text → String) → Text → Env → String
getenv string_of variable env = or_empty string_of (lookup_env variable env)

-- flag.String: the flag, or its default.
abbrev pub flag_or : Option String → String → String
flag_or none standard = standard
flag_or (some given) standard = given

-- What runs once the service listens: the handlers' secret and the provider's client.
pub record Listening : Type 0 where
  pub address : String
  pub client : Choice
  pub webhook_secret : String

abbrev pub env_loaded : Outcome → Exec File Unit
env_loaded loaded = pure tt
env_loaded (unread cause) = raise (other "Failed to load .env")
env_loaded (failed line why) = raise (other "Failed to load .env")

abbrev pub database_opened : Result (Unit {0}) → Exec File Unit
database_opened (ok done) = pure tt
database_opened (err e) = raise (other "Failed to open database")

abbrev pub client_built : Choice → Exec File Choice
client_built (refused_to_start why) = raise (other why)
client_built stub = pure stub
client_built (live key_id key_secret) = pure (live key_id key_secret)

-- What follows loadDotEnv. The file is the one at the path of the database.
unfoldable pub after_load : Host → Flags → Env → Exec File Listening
unfolding lookup_env open_file build_razorpay_client attempt
after_load h f env =
    let key_id = flag_or f.razorpay_key_id (getenv h.string_of key_id_variable env) in
    let key_secret = flag_or f.razorpay_key_secret (getenv h.string_of key_secret_variable env) in
    do
      opened ← attempt open_file
      database_opened opened
      client ← client_built (build_razorpay_client key_id key_secret)
      pure (record {
        address = flag_or f.port ":8090";
        client = client;
        webhook_secret =
            flag_or f.razorpay_webhook_secret (getenv h.string_of webhook_secret_variable env);
      })

-- An error is a logFatal.
unfoldable pub start_service : Host → Flags → Exec File Listening
unfolding load_dot_env after_load
start_service h f =
    let (outcome, env) = load_dot_env h.dot_env h.env in do env_loaded outcome; after_load h f env
