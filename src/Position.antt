-- ===== src/Position.antt =====
-- Aggregate positions: a side and a quantity for an instrument, kept by the live environment
-- (environments/live/position) and by the virtual one (environments/virtual/position).
pub mod Net
pub mod Live
pub mod Virtual
pub mod Fills
mod Tests
