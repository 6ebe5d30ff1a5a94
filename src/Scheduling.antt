-- ===== src/Scheduling.antt =====
-- What the scheduler decides: whom an assignment picks, and what the queue view shows.
pub mod Choice
pub mod Ordering
pub mod Queue
pub mod Totals
