-- ===== src/Decision.antt =====
-- core/decision: the arbiter of conflicting strategy signals.
pub mod Arbiter
mod Tests
