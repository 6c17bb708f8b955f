-- ===== src/Oms.antt =====
-- core/oms: the order state machine, the router, multi-leg plans, position groups and intents.
pub mod Fsm
pub mod Router
