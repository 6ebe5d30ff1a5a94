-- ===== src/Campaign.antt =====
-- recovery-orchestrator/internal/campaign/manager.go: the business rules over the store. The
-- children hold the prompt, the end of a call, the sessions and the payments.
pub mod Rupees
pub mod Amounts
pub mod Template
pub mod Prompt
pub mod Outcome
pub mod EndSession
pub mod Sessions
pub mod Payments
