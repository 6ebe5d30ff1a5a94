-- ===== src/Startup/Main/Settings.antt =====
-- What the service is started with.
use mathlib.Core.List.{append-nil}
use vasuli.Prelude.{
  String, ◌≡◌, ◌≢◌, refl, sym, ap, subst, ◌∙◌, ◌⊎◌, inl, inr, Option, ◌++◌, true, false, str_eq,
  eq_iff, Bool-cases, arith,
}
use vasuli.Exec.{Exec, Result, ok, err, Error, attempt, pure, ◌>>=◌, ◌>>◌}
use vasuli.Store.Opening.{File, open_file}
use vasuli.Razorpay.Clients.{
  Choice, stub, live, refused_to_start, is_test_mode, build_razorpay_client,
}
use vasuli.Startup.DotEnv.{Text, Env, lookup_env, Outcome, loaded, unread, failed, load_dot_env}
use vasuli.Startup.Precedence.{assignments, lines_of, Stops, FirstWins, load_dot_env-FirstWins}
use vasuli.Startup.Main.{
  Host, Flags, Listening, key_id_variable, key_secret_variable, webhook_secret_variable, or_empty,
  getenv, flag_or, env_loaded, database_opened, client_built, after_load, start_service,
}

-- A setting: the flag; without it the variable of the shell; without that its first assignment in
-- .env; and otherwise nothing.
abbrev pub setting : Host → Option String → Text → String
setting h flag variable =
    flag_or flag (getenv h.string_of variable (h.env ++ assignments (lines_of h.dot_env)))

-- The client that may run with two credentials: the stub with none, the provider's with a key of test
-- mode and a secret.
abbrev pub Permitted : String → String → Choice → Type 0
Permitted key_id key_secret stub = (key_id ≡ "") × (key_secret ≡ "")
Permitted key_id key_secret (live k s) =
    (k ≡ key_id) × (s ≡ key_secret) × (is_test_mode key_id ≡ true) × (s ≢ "")
Permitted key_id key_secret (refused_to_start why) = ⊥

abbrev pub Started : Host → Flags → File → Result Listening → File → Type 0
Started h f file (ok s) file' =
    ((load_dot_env h.dot_env h.env).0 ≡ loaded)
    × (open_file file ≡ (ok tt, file'))
    × (s.address ≡ flag_or f.port ":8090")
    × (s.webhook_secret ≡ setting h f.razorpay_webhook_secret webhook_secret_variable)
    × Permitted (setting h f.razorpay_key_id key_id_variable)
        (setting h f.razorpay_key_secret key_secret_variable) s.client
Started h f file (err e) file' =
    (((load_dot_env h.dot_env h.env).0 ≢ loaded) × (file' ≡ file))
    ⊎ ((why : Error) × (open_file file ≡ (err why, file')))
    ⊎ ((open_file file ≡ (ok tt, file'))
        × (why : String) × (build_razorpay_client (setting h f.razorpay_key_id key_id_variable)
              (setting h f.razorpay_key_secret key_secret_variable)
            ≡ refused_to_start why))

str_eq-≡ : (x y : String) → str_eq x y ≡ true → x ≡ y
str_eq-≡ x y h = ground (arith, h, eq_iff x y)

str_eq-≢ : (x y : String) → str_eq x y ≡ false → x ≢ y
str_eq-≢ x y h e = ground (arith, h, e, eq_iff x y)

-- A pair of credentials is permitted or refused.
build_razorpay_client-Permitted :
    (k s : String)
    → Permitted k s (build_razorpay_client k s)
      ⊎ ((why : String) × (build_razorpay_client k s ≡ refused_to_start why))
unfolding build_razorpay_client
build_razorpay_client-Permitted k s = elim (Bool-cases (str_eq k "")) [
  | inl no_id ↦ elim (Bool-cases (str_eq s "")) [
    | inl no_secret ↦ rw (no_id, no_secret) (inl (str_eq-≡ k "" no_id, str_eq-≡ s "" no_secret))
    | inr secret ↦ rw (no_id, secret) (inr (_, refl))
  ]
  | inr id ↦ elim (Bool-cases (str_eq s "")) [
    | inl no_secret ↦ rw (id, no_secret) (inr (_, refl))
    | inr secret ↦ elim (Bool-cases (is_test_mode k)) [
      | inl test ↦ rw (id, secret, test) (inl (refl, refl, test, str_eq-≢ s "" secret))
      | inr production ↦ rw (id, secret, production) (inr (_, refl))
    ]
  ]
]

module _ (h : Host) (f : Flags) (file : File) where
  abbrev key_id : String
  key_id = setting h f.razorpay_key_id key_id_variable

  abbrev key_secret : String
  key_secret = setting h f.razorpay_key_secret key_secret_variable

  -- The environment behind .env, if all of it was loaded.
  values-of-load :
      (o : Outcome) (env : Env)
      → FirstWins 1 (lines_of h.dot_env) h.env env o
      → o ≡ loaded
      → (flag : Option String) (variable : Text)
      → flag_or flag (getenv h.string_of variable env) ≡ setting h flag variable
  values-of-load o env w e flag variable =
      let all : lines_of h.dot_env ≡ w.done =
        w.split
        ∙ ap (λ x. w.done ++ x) (subst (λ x. Stops x 1 w.done w.rest) e w.stops)
        ∙ append-nil w.done in
      ap (λ v. flag_or flag (or_empty h.string_of v))
        (w.values variable ∙ ap (λ ls. lookup_env variable (h.env ++ assignments ls)) (sym all))

  abbrev listening : Choice → Exec File Listening
  listening c = do
    client ← client_built c
    pure (record {
      address = flag_or f.port ":8090";
      client = client;
      webhook_secret = setting h f.razorpay_webhook_secret webhook_secret_variable;
    })

  abbrev StartedBy : Exec File Listening → File → Type 0
  StartedBy m g = Started h f file (m g).0 (m g).1

  listening-Started :
      (c : Choice) (file' : File)
      → (load_dot_env h.dot_env h.env).0 ≡ loaded
      → open_file file ≡ (ok tt, file')
      → build_razorpay_client key_id key_secret ≡ c
      → Permitted key_id key_secret c ⊎ ((why : String) × (c ≡ refused_to_start why))
      → StartedBy (listening c) file'
  unfolding ◌>>=◌
  listening-Started stub file' l o b (inl p) = (l, o, refl, refl, p)
  listening-Started stub file' l o b (inr (why, e)) = absurd (cc)
  listening-Started (live k s) file' l o b (inl p) = (l, o, refl, refl, p)
  listening-Started (live k s) file' l o b (inr (why, e)) = absurd (cc)
  listening-Started (refused_to_start why) file' l o b p = inr (inr (o, why, b))

  after_load-Started :
      (env : Env)
      → (load_dot_env h.dot_env h.env).0 ≡ loaded
      → ((flag : Option String) (variable : Text)
          → flag_or flag (getenv h.string_of variable env) ≡ setting h flag variable)
      → StartedBy (after_load h f env) file
  unfolding ◌>>=◌ after_load attempt
  after_load-Started env l v =
      rw
        (
          v f.razorpay_key_id key_id_variable,
          v f.razorpay_key_secret key_secret_variable,
          v f.razorpay_webhook_secret webhook_secret_variable,
        )
        (opened (open_file file).0 (open_file file).1 refl)
    where
      opened :
          (r : Result (Unit {0})) (file' : File)
          → open_file file ≡ (r, file')
          → StartedBy
              (λ g.
                (database_opened r >> listening (build_razorpay_client key_id key_secret)) file')
              file
      opened (ok tt) file' o =
          listening-Started (build_razorpay_client key_id key_secret) file' l o refl
            (build_razorpay_client-Permitted key_id key_secret)
      opened (err e) file' o = inr (inl (e, o))

  -- The start of the service, whichever way it ends. It listens only if .env could be read to its end
  -- and the database was opened; then each setting is the flag's, without the flag that of the shell's
  -- variable, without that the first assignment in .env, and otherwise empty; and the provider's
  -- client is the stub, without credentials, or the live one, with a key of test mode and a secret.
  -- It stops only if .env could not be loaded, which leaves the database untouched, if the database
  -- could not be opened, or if the credentials are refused.
  pub start_service-Started : Started h f file (start_service h f file).0 (start_service h f file).1
  unfolding start_service ◌>>=◌
  start_service-Started =
      loading (load_dot_env h.dot_env h.env).0 (load_dot_env h.dot_env h.env).1 refl
    where
      loading :
          (o : Outcome) (env : Env)
          → load_dot_env h.dot_env h.env ≡ (o, env)
          → StartedBy (env_loaded o >> after_load h f env) file
      loading loaded env e = after_load-Started env (ap (λ p. p.0) e) (λ flag variable.
          values-of-load loaded env
            (subst (λ p. FirstWins 1 (lines_of h.dot_env) h.env p.1 p.0) e
              (load_dot_env-FirstWins h.dot_env h.env))
            refl flag variable)
      loading (unread cause) env e = inl ((λ l. absurd (cc)), refl)
      loading (failed line why) env e = inl ((λ l. absurd (cc)), refl)
