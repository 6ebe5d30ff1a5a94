-- ===== src/Voice.antt =====
-- var-thon/services/orchestrator-go: the session with the inference engine (internal/session) and the
-- gateway that runs one call (internal/gateway).
pub mod Session
pub mod Call
pub mod Steps
pub mod Control
pub mod Outcome
pub mod InOrder
pub mod Audio
pub mod Teardown
pub mod Ending
pub mod Recovery
pub mod Gateway
pub mod Bridge
pub mod Reports
pub mod Stranded
pub mod Streaming
pub mod Program
pub mod RequestPath
pub mod Serving
pub mod TestClient
