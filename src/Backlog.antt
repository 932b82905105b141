-- ===== src/Backlog.antt =====
-- src/rci/backlog: findings, the effects they propose, and the items that effects are applied to.
pub mod Models
pub mod Reconcile
pub mod Apply
mod Tests
