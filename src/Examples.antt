-- ===== src/Examples.antt =====
-- Concrete inputs, and the theorems applied to them.
mod Data
mod Contact
mod Calls
mod Money
mod Views
mod Links
mod Voice
mod Streaming
mod Service
mod Opening
mod Startup
mod Races
mod Paths
