-- ===== src/Startup/Precedence.antt =====
-- Which value a variable has after loadDotEnv.
use vasuli.Prelude.{
  ℕ, suc, ◌+◌, String, ◌≡◌, refl, sym, ◌∙◌, ap, subst, inl, inr, true, Bool-cases, Option, none,
  some, List, [], ◌∷◌, ◌++◌, arith, length, if◌then◌else◌, ◌||◌,
}
use mathlib.Core.List.{append-nil, append_assoc}
use vasuli.Startup.DotEnv.{
  Text, text_eq, Line, skipped, no_pair, no_key, binding, parse_line, Env, lookup_env, set_in,
  has_nul, Reason, set_env, handle_line, Outcome, loaded, unread, failed, scan_result,
  continue_from, load_lines, EnvFile, missing, unopened, scanned, load_dot_env,
}

-- The assignments of a file, in order.
abbrev assignment : Line → Env
assignment skipped = []
assignment no_pair = []
assignment no_key = []
assignment (binding key value) = (key, value) ∷ []

unfoldable pub assignments : List Text → Env
assignments [] = []
assignments (l ∷ ls) = assignment (parse_line l) ++ assignments ls

abbrev pub Stops : Outcome → ℕ → List Text → List Text → Type 0
Stops loaded line_no done rest = rest ≡ []
Stops (unread cause) line_no done rest = rest ≡ []
Stops (failed at why) line_no done rest = at ≡ length done + line_no

-- The file was read up to some line, and a variable has the first value that the environment, and
-- then the lines read, give it.
pub record FirstWins (line_no : ℕ) (lines : List Text) (env env' : Env) (o : Outcome) : Type 0 where
  pub done : List Text
  pub rest : List Text
  pub split : lines ≡ done ++ rest
  pub values : (key : Text) → lookup_env key env' ≡ lookup_env key (env ++ assignments done)
  pub stops : Stops o line_no done rest

-- Two environments in which every variable has the same value.
abbrev SameValues : Env → Env → Type 0
SameValues env env' = (key : Text) → lookup_env key env' ≡ lookup_env key env

abbrev first : Option Text → Option Text → Option Text
first none o = o
first (some v) o = some v

lookup_env-append :
    (key : Text) (a b : Env) → lookup_env key (a ++ b) ≡ first (lookup_env key a) (lookup_env key b)
unfolding lookup_env
lookup_env-append key [] b = refl
lookup_env-append key ((k, v) ∷ a) b = elim (Bool-cases (text_eq k key)) [
  | inl hit ↦ rw hit refl
  | inr miss ↦ rw miss (lookup_env-append key a b)
]

append-SameValues :
    (a b c : Env)
    → SameValues a b
    → (key : Text) → lookup_env key (b ++ c) ≡ lookup_env key (a ++ c)
append-SameValues a b c h key =
    rw (lookup_env-append key a c, lookup_env-append key b c, h key) refl

pub text_eq_sound : (s t : Text) → text_eq s t ≡ true → s ≡ t
unfolding text_eq
text_eq_sound [] [] h = refl
text_eq_sound [] (d ∷ t) h = absurd (cc)
text_eq_sound (c ∷ s) [] h = absurd (cc)
text_eq_sound (c ∷ s) (d ∷ t) h = ground (arith, text_eq_sound s t)

-- An assignment to a variable that is set changes nothing.
lookup_env-present :
    (key value other present : Text) (env : Env)
    → lookup_env key env ≡ some present
    → lookup_env other (env ++ (key, value) ∷ []) ≡ lookup_env other env
unfolding lookup_env
lookup_env-present key value other present env h =
    rw (lookup_env-append other env ((key, value) ∷ [])) (elim (Bool-cases (text_eq key other)) [
      | inl hit ↦
          rw (subst (λ t. lookup_env t env ≡ some present) (text_eq_sound key other hit) h) refl
      | inr miss ↦ rw miss (last (lookup_env other env))
    ])
  where
    last : (o : Option Text) → first o none ≡ o
    last none = refl
    last (some v) = refl

lookup_env-set_in :
    (key value other : Text) (env : Env)
    → lookup_env key env ≡ none
    → lookup_env other (set_in key value env) ≡ lookup_env other (env ++ (key, value) ∷ [])
unfolding lookup_env set_in
lookup_env-set_in key value other [] h = refl
lookup_env-set_in key value other ((k, v) ∷ env) h = elim (Bool-cases (text_eq k key)) [
  | inl hit ↦ absurd (cc (rw hit at h))
  | inr miss ↦ rw miss (
      ap (λ o. if text_eq k other then some v else o)
        (lookup_env-set_in key value other env (rw miss at h)))
]

set_env-SameValues :
    (key value : Text) (env env' : Env)
    → lookup_env key env ≡ none
    → set_env key value env ≡ (none, env')
    → SameValues (env ++ (key, value) ∷ []) env'
unfolding set_env
set_env-SameValues key value env env' h e other = elim (Bool-cases (has_nul key || has_nul value)) [
  | inl t ↦ absurd (cc (rw t at e))
  | inr f ↦
      let same : set_in key value env ≡ env' = cc (rw f at e) in
      rw (← same) (lookup_env-set_in key value other env h)
]

handle_line-SameValues :
    (l : Line) (env env' : Env)
    → handle_line l env ≡ (none, env')
    → SameValues (env ++ assignment l) env'
unfolding handle_line
handle_line-SameValues skipped env env' e key =
    let same : env ≡ env' = cc e in rw (append-nil env, ← same) refl
handle_line-SameValues no_pair env env' e key = absurd (cc e)
handle_line-SameValues no_key env env' e key = absurd (cc e)
handle_line-SameValues (binding k v) env env' e key = decided (lookup_env k env) refl e
  where
    decided :
        (o : Option Text)
        → lookup_env k env ≡ o
        → elim o [ some present ↦ (none, env) | none ↦ set_env k v env ] ≡ (none, env')
        → lookup_env key env' ≡ lookup_env key (env ++ (k, v) ∷ [])
    decided none p q = set_env-SameValues k v env env' p q key
    decided (some present) p q =
        let same : env ≡ env' = cc q in rw (← same) (sym (lookup_env-present k v key present env p))

handle_line-stopped :
    (l : Line) (env env' : Env) (why : Reason) → handle_line l env ≡ (some why, env') → env' ≡ env
unfolding handle_line set_env
handle_line-stopped skipped env env' why e = absurd (cc e)
handle_line-stopped no_pair env env' why e = cc e
handle_line-stopped no_key env env' why e = cc e
handle_line-stopped (binding k v) env env' why e = ground arith

Stops-suc :
    (o : Outcome) (line_no : ℕ) (l : Text) (done rest : List Text)
    → Stops o (suc line_no) done rest
    → Stops o line_no (l ∷ done) rest
Stops-suc loaded line_no l done rest h = h
Stops-suc (unread cause) line_no l done rest h = h
Stops-suc (failed at why) line_no l done rest h = omega arith

scan_result-Stops : (scan : Option String) (line_no : ℕ) → Stops (scan_result scan) line_no [] []
scan_result-Stops none line_no = refl
scan_result-Stops (some cause) line_no = refl

continue_from-FirstWins :
    (line_no : ℕ) (l : Text) (ls : List Text) (scan : Option String) (env : Env)
    (r : Option Reason × Env)
    → handle_line (parse_line l) env ≡ r
    → FirstWins
        (suc line_no)
        ls
        r.1
        (load_lines (suc line_no) ls scan r.1).1
        (load_lines (suc line_no) ls scan r.1).0
    → FirstWins line_no
        (l ∷ ls)
        env
        (continue_from line_no (load_lines (suc line_no) ls scan) r).1
        (continue_from line_no (load_lines (suc line_no) ls scan) r).0
unfolding assignments
continue_from-FirstWins line_no l ls scan env (none, env1) e f = record {
  done = l ∷ f.done;
  rest = f.rest;
  split = ap (λ x. l ∷ x) f.split;
  values = λ key.
      f.values key
      ∙ append-SameValues (env ++ assignment (parse_line l)) env1 (assignments f.done)
          (handle_line-SameValues (parse_line l) env env1 e) key
      ∙ ap (lookup_env key) (append_assoc env (assignment (parse_line l)) (assignments f.done));
  stops = Stops-suc _ line_no l f.done f.rest f.stops;
}
continue_from-FirstWins line_no l ls scan env (some why, env1) e f = record {
  done = [];
  rest = l ∷ ls;
  split = refl;
  values = λ key.
      rw (append-nil env) (ap (lookup_env key) (handle_line-stopped (parse_line l) env env1 why e));
  stops = omega arith;
}

load_lines-FirstWins :
    (line_no : ℕ) (lines : List Text) (scan : Option String) (env : Env)
    → FirstWins line_no lines env
        (load_lines line_no lines scan env).1
        (load_lines line_no lines scan env).0
unfolding load_lines assignments
load_lines-FirstWins line_no [] scan env = record {
  done = [];
  rest = [];
  split = refl;
  values = λ key. rw (append-nil env) refl;
  stops = scan_result-Stops scan line_no;
}
load_lines-FirstWins line_no (l ∷ ls) scan env =
    continue_from-FirstWins line_no l ls scan env (handle_line (parse_line l) env) refl
      (load_lines-FirstWins (suc line_no) ls scan (handle_line (parse_line l) env).1)

abbrev pub lines_of : EnvFile → List Text
lines_of missing = []
lines_of (unopened cause) = []
lines_of (scanned lines scan) = lines

-- After loadDotEnv, successful or not, each variable has the value that it had before, if it was set,
-- and otherwise that of the first assignment to it in the lines that were read; these are all lines,
-- or, when the error names a line, exactly those before it. A file that is missing or cannot be opened
-- changes nothing.
pub load_dot_env-FirstWins :
    (file : EnvFile) (env : Env)
    → FirstWins 1 (lines_of file) env (load_dot_env file env).1 (load_dot_env file env).0
unfolding load_dot_env assignments
load_dot_env-FirstWins missing env = record {
  done = [];
  rest = [];
  split = refl;
  values = λ key. rw (append-nil env) refl;
  stops = refl;
}
load_dot_env-FirstWins (unopened cause) env = record {
  done = [];
  rest = [];
  split = refl;
  values = λ key. rw (append-nil env) refl;
  stops = refl;
}
load_dot_env-FirstWins (scanned lines scan) env = load_lines-FirstWins 1 lines scan env
