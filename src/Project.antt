-- ===== src/Project.antt =====
-- src/rci/project: successor candidates and the frontier that is derived from them.
pub mod Models
pub mod Frontier
mod Tests
