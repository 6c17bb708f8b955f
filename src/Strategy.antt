-- ===== src/Strategy.antt =====
-- The strategies: their registry, the orchestrator that runs them, and the way of their signals.
pub mod Registry
pub mod Orchestrator
pub mod Signals
pub mod Commands
pub mod Traces
pub mod Canonical
pub mod Sources
pub mod Stems
pub mod Track3
mod Tests
