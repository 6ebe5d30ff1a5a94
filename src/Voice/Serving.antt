-- ===== src/Voice/Serving.antt =====
-- The server command of cmd/gateway-server/main.go up to Serve, and NewServer of
-- internal/gateway/server.go.
use vasuli.Prelude.{String, ◌≡◌, ◌⊎◌, refl, inl, inr, true, false, str_eq, if◌then◌else◌}
use vasuli.Exec.{Result, ok, err, Error}
use vasuli.Voice.Gateway.{AgentProfile, Server}
use vasuli.Voice.Program.{Profiles, wrapped, load_profile}

-- net.Listen and grpc.NewClient.
pub record Network : Type 0 where
  pub listen : Result (Unit {0})
  pub connect : Result (Unit {0})

abbrev pub after_ok {ℓ} : {A B : Type ℓ} → Result A → (A → Result B) → Result B
after_ok (ok a) next = next a
after_ok (err e) next = err e

-- NewServer; its connection to the inference engine is not kept apart.
unfoldable pub new_server : Network → AgentProfile → String → Result Server
new_server n profile recovery_url =
    after_ok (wrapped "gateway: failed to connect to inference engine" n.connect) (λ conn.
      ok (record { profile = profile; recovery = if str_eq recovery_url "" then false else true }))

-- An error is a log.Fatalf.
unfoldable pub start_gateway : Profiles → Network → String → String → Result Server
unfolding load_profile new_server
start_gateway p n profile_name recovery_url =
    after_ok (wrapped "Failed to load profile" (load_profile p profile_name)) (λ profile.
      after_ok (wrapped "Failed to listen" n.listen)
        (λ lis. wrapped "Failed to initialize gateway server" (new_server n profile recovery_url)))

abbrev pub Boots : Profiles → Network → String → String → Result Server → Type 0
Boots p n name recovery_url (ok s) =
    (load_profile p name ≡ ok s.profile)
    × (s.recovery ≡ (if str_eq recovery_url "" then false else true))
Boots p n name recovery_url (err e) =
    ((why : Error) × (load_profile p name ≡ err why))
    ⊎ ((why : Error) × (n.listen ≡ err why))
    ⊎ ((why : Error) × (n.connect ≡ err why))

-- The gateway serves the profile that was asked for, with a client of the recovery orchestrator
-- exactly if its URL was given; or it stops because the profile, the port or the connection failed.
start_gateway-Boots :
    (p : Profiles) (n : Network) (name recovery_url : String)
    → Boots p n name recovery_url (start_gateway p n name recovery_url)
unfolding start_gateway new_server
start_gateway-Boots p n name recovery_url =
    by_results (load_profile p name) n.listen n.connect refl refl refl
  where
    by_results :
        (r : Result AgentProfile) (l c : Result (Unit {0}))
        → load_profile p name ≡ r
        → n.listen ≡ l
        → n.connect ≡ c
        → Boots p n name recovery_url (
            after_ok (wrapped "Failed to load profile" r) (λ profile.
              after_ok (wrapped "Failed to listen" l) (λ lis.
                wrapped "Failed to initialize gateway server"
                  (new_server (record { listen = l; connect = c }) profile recovery_url))))
    by_results (err x) l c e f g = inl (x, e)
    by_results (ok profile) (err x) c e f g = inr (inl (x, f))
    by_results (ok profile) (ok lis) (err x) e f g = inr (inr (x, g))
    by_results (ok profile) (ok lis) (ok conn) e f g = (e, refl)
