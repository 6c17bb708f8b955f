-- ===== src/Risk.antt =====
-- core/risk: the configuration, the pre-trade engine and its gate, the sensor, and the approval of
-- orders with several legs.
pub mod Config
pub mod Input
pub mod Engine
pub mod Sensor
pub mod MultiLeg
mod Tests
