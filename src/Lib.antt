-- ===== src/Lib.antt =====
-- KOSPI200_Project: the order path of an options trading system, from strategy signals to positions.
--
-- The program takes signals of nine strategies ("tracks"), lets an arbiter drop the ones that
-- contradict each other, checks each order against risk limits, turns it into an order intent and a
-- broker command, routes it, and books the executions that come back into the order states and
-- positions. Python objects with state are records here, their methods functions from the state to a
-- result and the new state; an exception is a value, and what was written before it stays written.
--
-- Files, with the code that each models:
--   Base             Python's integers, texts, dictionaries, exceptions and finite decimals (28 digits,
--                    half-even), and the names and lemmas that all modules share
--   Contracts        contracts/types.py, contracts/risk.py, contracts/order_ack.py
--   Oms.Fsm          core/oms/oms_fsm.py (OrderStateMachine: apply_intent, apply_ack, ...)
--   Oms.Router       core/oms/order_router.py (register_and_route)
--   Position.Live    environments/live/position/live_position_aggregate.py
--   Position.Virtual environments/virtual/position/virtual_position_aggregate.py and
--                    core/position/position_aggregate.py
--   Position.Fills   live_position_fill_adapter.py and virtual_position_fill_adapter.py beside them
--   Risk.Config      core/risk/risk_config.py
--   Risk.Input       core/risk/risk_input.py and core/position/position_aggregate_risk_adapter.py
--   Risk.Sensor      core/risk/risk_sensor.py
--   Risk.Engine      core/risk/risk_engine.py (RiskEngine, RiskGate)
--   Risk.MultiLeg    core/risk/multi_leg_risk.py
--   Decision.Arbiter core/decision/decision_arbiter.py
--   Orders.Resolver, Orders.Intent
--                    core/oms/option_identity_resolver.py and core/oms/order_intent_factory.py
--   Orders.Projection
--                    core/oms/risk_order_intent_adapter.py, risk_approved_broker_command_adapter.py and
--                    position_execution_policy.py
--   Orders.Plan, Orders.Materialize, Orders.Submit
--                    core/oms/contracts.py_children/multi_leg_plan.py (the same code stands in
--                    core/oms/contracts.py), multi_leg_materializer.py and multi_leg_submission.py
--   Orders.Group     core/oms/position_group.py and core/oms/track3_legging.py
--   Live.Gate        environments/live/safety_gate.py and environments/live/contracts.py
--   Live.Dedup       environments/live/execution/execution_event_deduplicator.py
--   Live.Settlement  environments/live/position/live_execution_position_bridge.py
--   Live.Recovery    environments/live/idempotency.py, reconciliation.py and recovery.py
--   Live.Identity    contracts/krx_kis_identity_reconciliation.py
--   Runtime.Lifecycle
--                    application/composition/live_runtime_lifecycle_coordinator.py
--                    (LiveRuntimeLifecycleCoordinator: start, receive_execution_once, stop)
--   Runtime.Environment
--                    application/environment_hub/factory.py and hub.py, and
--                    application/runtime_controller/controller.py
--   Strategy.Registry, Strategy.Orchestrator
--                    core/strategy/registry.py and core/strategy/orchestrator.py
--                    (StrategyOrchestrator)
--   Strategy.Signals, Strategy.Commands (with Traces, Canonical, Sources and Stems)
--                    core/strategy/orchestrator.py (signal_to_canonical and the two adapters),
--                    core/strategy/strategy_execution_proposal.py,
--                    core/runtime/runtime_execution_context.py and approved_signal_to_command of
--                    core/runtime/reference_execution_pipeline.py
--   Strategy.Track3  core/strategy/track3_statistical_arbitrage.py (evaluate_input)
--   Options.Expiry, Options.Parse, Options.Master
--                    core/option/option_master.py (the expiries, parse_kis_fo_idx_mst_result, and
--                    the registries InMemoryOptionContractMaster and
--                    KisProductionOptionContractMaster)
--   Time.Calendar    infrastructure/kis/trading_calendar.py
--   Time.Clock       environments/virtual/clock.py (the tick loop)
--
-- The parts call each other as in the code: the router calls the state machine, the gate for
-- several legs calls the standard gate and that the engine, the settlement calls the state machine,
-- the event gate and the fill adapter, the decision adapter calls the arbiter on the canonical
-- signals of a run of the strategies. In this revision of the repository several statements are
-- comments; the model keeps the code as it runs, so acknowledgements and executions raise.
--
-- Parameters: the margin calculator, the id and the time of an approval token, the broker, the
-- callbacks of the composition, the holiday provider, the source of clock ticks, the answers of the
-- runtime's collaborators, the strategies behind their protocol, the digits, dates and decimals
-- that Python reads and prints for the option master, and the floats of virtual positions,
-- canonical signals and the third track. Fuel: the digit count and the print of numbers run on the
-- number itself, which each round divides by ten; the search for an open day runs on its date,
-- which each round lowers; the tick loop runs on its milliseconds, of which each round takes at
-- least one. All other loops follow a list or a number down.
--
-- Not modelled: NaN, infinities and exponent limits of decimals; logging; the wording of formatted
-- numbers in reasons; checks on Python types, which typing makes true; network transports, the
-- market simulation, the rules of the strategies but the third, overlapping starts and stops of the
-- runtime, and the composition of the parts at the program's start.
pub mod Base
pub mod Contracts
pub mod Oms
pub mod Position
pub mod Risk
pub mod Decision
pub mod Orders
pub mod Live
pub mod Time
pub mod Runtime
pub mod Strategy
pub mod Options
