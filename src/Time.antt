-- ===== src/Time.antt =====
-- Time: infrastructure/kis/trading_calendar.py (Calendar) and the tick clock of
-- environments/virtual/clock.py (Clock).
pub mod Calendar
pub mod Clock
mod Tests
