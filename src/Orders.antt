-- ===== src/Orders.antt =====
-- core/oms: what stands between a strategy's decision and the router, for single orders
-- (Resolver, Intent, Projection) and for orders with several legs (Plan, Materialize, Submit,
-- Group).
pub mod Resolver
pub mod Intent
pub mod Projection
pub mod Plan
pub mod Materialize
pub mod Submit
pub mod Group
mod Tests
