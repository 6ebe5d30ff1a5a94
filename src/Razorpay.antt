-- ===== src/Razorpay.antt =====
-- recovery-orchestrator/internal/razorpay: webhook payloads and signatures, and the clients of the
-- payment-link API.
pub mod Webhook
pub mod Clients
pub mod Links
