-- ===== src/Startup/DotEnv.antt =====
-- loadDotEnv of recovery-orchestrator/cmd/env.go. Texts are lists of code points; the file is what
-- bufio.Scanner gives of it, its lines and the error that it ends with.
use vasuli.Prelude.{
  ℕ, suc, String, Bool, true, false, ◌&&◌, ◌||◌, Option, none, some, List, [], ◌∷◌, leb, ◌==◌,
  if◌then◌else◌,
}

abbrev pub Text : Type 0
Text = List ℕ

unfoldable pub text_eq : Text → Text → Bool
text_eq [] [] = true
text_eq [] (d ∷ t) = false
text_eq (c ∷ s) [] = false
text_eq (c ∷ s) (d ∷ t) = c == d && text_eq s t

-- unicode.IsSpace.
abbrev is_space : ℕ → Bool
is_space c =
    (leb 9 c && leb c 13)
    || c == 32
    || c == 133
    || c == 160
    || c == 5760
    || (leb 8192 c && leb c 8202)
    || c == 8232
    || c == 8233
    || c == 8239
    || c == 8287
    || c == 12288

abbrev is_quote : ℕ → Bool
is_quote c = c == b'"' || c == b'\''

abbrev is_nil : Text → Bool
is_nil [] = true
is_nil (c ∷ s) = false

unfoldable pub trim_left : (ℕ → Bool) → Text → Text
trim_left p [] = []
trim_left p (c ∷ s) = let rest = trim_left p s in if p c then rest else c ∷ s

unfoldable pub trim_right : (ℕ → Bool) → Text → Text
trim_right p [] = []
trim_right p (c ∷ s) = let rest = trim_right p s in if is_nil rest && p c then [] else c ∷ rest

-- strings.TrimSpace and strings.Trim.
unfoldable pub trim : (ℕ → Bool) → Text → Text
unfolding trim_left trim_right
trim p s = trim_right p (trim_left p s)

abbrev pub or_none : Option Text → Text → Text
or_none none s = s
or_none (some rest) s = rest

-- What is left of the text behind the prefix.
unfoldable pub behind : Text → Text → Option Text
behind [] s = some s
behind (c ∷ p) [] = none
behind (c ∷ p) (d ∷ s) = let rest = behind p s in if c == d then rest else none

-- strings.TrimPrefix.
unfoldable pub trim_prefix : Text → Text → Text
unfolding behind
trim_prefix prefix s = or_none (behind prefix s) s

abbrev cut_at : Bool → ℕ → Text → Option (Text × Text) → Option (Text × Text)
cut_at true c s rest = some ([], s)
cut_at false c s none = none
cut_at false c s (some (before, after)) = some (c ∷ before, after)

-- strings.Cut at a single character.
unfoldable pub cut : ℕ → Text → Option (Text × Text)
cut sep [] = none
cut sep (c ∷ s) = cut_at (c == sep) c s (cut sep s)

abbrev export_prefix : Text
export_prefix = b'e' ∷ b'x' ∷ b'p' ∷ b'o' ∷ b'r' ∷ b't' ∷ b' ' ∷ []

abbrev is_comment : Text → Bool
is_comment [] = false
is_comment (c ∷ s) = c == b'#'

pub data Line : Type 0 where
  skipped no_pair no_key : Line
  binding : Text → Text → Line

abbrev pub bind_line : Option (Text × Text) → Line
bind_line none = no_pair
bind_line (some (k, v)) =
    let key = trim is_space k in
    if is_nil key then no_key else binding key (trim is_quote (trim is_space v))

unfoldable pub parse_line : Text → Line
unfolding trim trim_prefix cut
parse_line s =
    let line = trim is_space s in
    if is_nil line || is_comment line
    then skipped
    else bind_line (cut b'=' (trim_prefix export_prefix line))

-- The environment of the process.
abbrev pub Env : Type 0
Env = List (Text × Text)

-- os.LookupEnv.
unfoldable pub lookup_env : Text → Env → Option Text
unfolding text_eq
lookup_env key [] = none
lookup_env key ((k, v) ∷ rest) = if text_eq k key then some v else lookup_env key rest

unfoldable pub set_in : Text → Text → Env → Env
unfolding text_eq
set_in key value [] = (key, value) ∷ []
set_in key value ((k, v) ∷ rest) =
    let rest' = set_in key value rest in if text_eq k key then (k, value) ∷ rest else (k, v) ∷ rest'

unfoldable pub has_nul : Text → Bool
has_nul [] = false
has_nul (c ∷ s) = c == 0 || has_nul s

pub data Reason : Type 0 where
  expected_pair empty_key not_set : Reason

-- os.Setenv refuses a NUL; that the key is empty or holds `=` cannot happen here.
unfoldable pub set_env : Text → Text → Env → Option Reason × Env
unfolding set_in has_nul
set_env key value env =
    if has_nul key || has_nul value then (some not_set, env) else (none, set_in key value env)

-- The body of the loop.
unfoldable pub handle_line : Line → Env → Option Reason × Env
unfolding lookup_env set_env
handle_line skipped env = (none, env)
handle_line no_pair env = (some expected_pair, env)
handle_line no_key env = (some empty_key, env)
handle_line (binding key value) env = elim (lookup_env key env) [
  | some present ↦ (none, env)
  | none ↦ set_env key value env
]

pub data Outcome : Type 0 where
  loaded : Outcome
  unread : String → Outcome
  failed : ℕ → Reason → Outcome

abbrev pub scan_result : Option String → Outcome
scan_result none = loaded
scan_result (some cause) = unread cause

abbrev pub continue_from : ℕ → (Env → Outcome × Env) → Option Reason × Env → Outcome × Env
continue_from line_no rest (none, env) = rest env
continue_from line_no rest (some why, env) = (failed line_no why, env)

unfoldable pub load_lines : ℕ → List Text → Option String → Env → Outcome × Env
unfolding handle_line parse_line
load_lines line_no [] scan env = (scan_result scan, env)
load_lines line_no (l ∷ ls) scan env =
    continue_from line_no (load_lines (suc line_no) ls scan) (handle_line (parse_line l) env)

pub data EnvFile : Type 0 where
  missing : EnvFile
  unopened : String → EnvFile
  scanned : List Text → Option String → EnvFile

unfoldable pub load_dot_env : EnvFile → Env → Outcome × Env
unfolding load_lines
load_dot_env missing env = (loaded, env)
load_dot_env (unopened cause) env = (unread cause, env)
load_dot_env (scanned lines scan) env = load_lines 1 lines scan env
