-- ===== src/Runtime.antt =====
-- The runtime around the environments: its lifecycle.
pub mod Lifecycle
pub mod Environment
mod Tests
