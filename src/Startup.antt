-- ===== src/Startup.antt =====
-- recovery-orchestrator/cmd: the .env file (env.go) and the start of the service (main.go).
pub mod DotEnv
pub mod Precedence
pub mod Main
