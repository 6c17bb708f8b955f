-- ===== src/Options.antt =====
-- The master of option contracts: their expiries and the registry of their identities.
pub mod Expiry
pub mod Master
pub mod Parse
mod Tests
