-- ===== src/Warrant.antt =====
-- src/rci/warrant: evidence, checker verdicts, support routes and the promotion of lemmas.
pub mod Models
pub mod Checks
pub mod Lemmas
pub mod Routes
pub mod Grounding
pub mod Environments
pub mod Theory
pub mod Ancestry
pub mod Promotion
mod Tests
