-- ===== src/Payments.antt =====
-- The payment events of campaign/manager.go: what their handlers do, and do once.
pub mod Captured
pub mod Settled
pub mod Lost
pub mod Redelivery
pub mod Newest
pub mod Queued
pub mod Total
