-- ===== src/Live.antt =====
-- environments/live: the gate before a live order (Gate), the gate for execution events (Dedup),
-- the settlement of an execution (Settlement), the restart after a failure (Recovery) and the match of
-- instrument codes (Identity).
pub mod Gate
pub mod Dedup
pub mod Settlement
pub mod Recovery
pub mod Identity
mod Tests
