-- ===== src/Core.antt =====
-- The event-sourced core (src/rci/core): effect records, the aggregate, its commands and events, the
-- pure `decide` and `evolve`, and replay.
pub mod Records
pub mod State
pub mod Messages
pub mod Decide
pub mod Evolve
pub mod Steps
pub mod Invariants
pub mod Links
pub mod History
pub mod Replay
pub mod Agreement
pub mod Idempotence
pub mod Repeats
mod Tests
