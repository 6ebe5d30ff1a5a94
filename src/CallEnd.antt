-- ===== src/CallEnd.antt =====
-- What the end of a call does to the database, on every branch.
pub mod Atomic
pub mod Recorded
pub mod Refused
pub mod Once
pub mod Twice
pub mod Already
pub mod FollowUp
