-- ===== src/Live/Settlement.antt =====
-- environments/live/position/live_execution_position_bridge.py: `LiveExecutionPositionBridge.settle`,
-- and its `LivePositionFillAdapter`, which is the same code as the adapter of
-- environments/live/position/live_position_fill_adapter.py. The constructor lacks its `self` and two
-- parameters in this revision, so the bridge is given here by the four parts that it would hold.
use kospi200_project.Base.{
  String, ◌≡◌, true, false, not, ◌&&◌, none, some, is_none, ◌∷◌, arith, ◌⊎◌, inl, inr, Bool-cases,
  Option-cases, if◌then◌else◌,
}
use kospi200_project.Base.Int.{pos, ◌+ℤ◌, ◌-ℤ◌, ltb_ℤ, leb_ℤ, eqb_ℤ}
use kospi200_project.Base.Text.{eq_iff, truthy}
use kospi200_project.Base.Lists.{elem}
use kospi200_project.Base.Dict.{lookup}
use kospi200_project.Base.Exn.{
  Result, ok, err, is_ok, raise, bind, Method, Result-cases, order_state_transition_error,
  value_error,
}
use kospi200_project.Contracts.{BrokerOrderCommand, ExecutionReport}
use kospi200_project.Oms.Fsm.{
  OrderState, OrderStateMachine, is_one_of, broker_id_differs, get_state, get_broker_order_command,
  apply_execution,
}
use kospi200_project.Oms.Fsm.Reach.{Reach, Reach-IsSubmitted}
use kospi200_project.Position.Live.{LivePositionAggregate}
use kospi200_project.Position.Fills.{apply_live}
use kospi200_project.Live.Dedup.{Seen, execution_key, accept, contains_id}

pub record LiveExecutionPositionBridge : Type 0 where
  pub oms : OrderStateMachine
  pub dedup : Seen
  pub position : LivePositionAggregate

abbrev reject {ℓ} : {A : Type ℓ} → String → Result A
reject m = raise order_state_transition_error m

-- The checks between the broker's command and the gate for events.
unfoldable pub transition_checks : ExecutionReport → OrderState → Result (Unit {0})
transition_checks report state =
    let cumulative = state.filled_quantity +ℤ report.filled_quantity in
    if not (is_one_of report.status "PARTIALLY_FILLED" "FILLED")
    then reject "UNSUPPORTED_EXECUTION_STATUS"
    else if leb_ℤ report.filled_quantity (pos 0)
    then reject "FILLED_QUANTITY_INVALID"
    else if ltb_ℤ state.order_quantity cumulative
    then reject "FILLED_QUANTITY_EXCEEDS_ORDER"
    else if not (eqb_ℤ report.remaining_quantity (state.order_quantity -ℤ cumulative))
    then reject "REMAINING_QUANTITY_MISMATCH"
    else if broker_id_differs report.broker_order_id state.broker_order_id
    then reject "BROKER_ORDER_ID_MISMATCH"
    else ok tt

-- The two last calls: the state machine, then the position.
unfoldable pub book :
    BrokerOrderCommand → ExecutionReport → Method LiveExecutionPositionBridge OrderState
book command report b =
    let (r, oms) = apply_execution report b.oms in
    elim r [
      | err e ↦ (err e, record b { oms = oms })
      | ok state ↦
          let (filled, position) = apply_live command report b.position in
          (bind filled (λ _. ok state), record b { oms = oms; position = position })
    ]

-- The gate for events, then the booking.
unfoldable pub consume :
    BrokerOrderCommand
    → ExecutionReport
    → OrderState
    → Method LiveExecutionPositionBridge OrderState
consume command report state b =
    let (r, dedup) = accept report b.dedup in
    elim r [
      | err e ↦ (err e, record b { dedup = dedup })
      | ok false ↦ (ok state, record b { dedup = dedup })
      | ok true ↦ book command report (record b { dedup = dedup })
    ]

-- What follows the check for a known event.
unfoldable pub settle_new :
    ExecutionReport → OrderState → Method LiveExecutionPositionBridge OrderState
settle_new report state b =
    if not (is_one_of state.status "ACKED" "PARTIALLY_FILLED")
    then (reject "EXECUTION_BEFORE_ACK", b)
    else elim (get_broker_order_command report.broker_order_id b.oms) [
      | err e ↦ (err e, b)
      | ok command ↦ elim (transition_checks report state) [
        | err e ↦ (err e, b)
        | ok _ ↦ consume command report state b
      ]
    ]

unfoldable pub settle : ExecutionReport → Method LiveExecutionPositionBridge OrderState
settle report b = elim (get_state report.client_order_id b.oms) [
  | none ↦ (reject "EXECUTION_BEFORE_ACK", b)
  | some state ↦
      if not (truthy (execution_key report))
      then (raise value_error "EXECUTION_EVENT_ID_REQUIRED", b)
      else if contains_id (execution_key report) b.dedup
      then (ok state, b)
      else settle_new report state b
]

execution_raises :
    (report : ExecutionReport) (m : OrderStateMachine)
    → (is_ok (apply_execution report m).0 ≡ false) × ((apply_execution report m).1 ≡ m)
unfolding apply_execution
execution_raises report m = (ground arith, ground arith)

submitted_idle : (t : String) → t ≡ "SUBMITTED" → is_one_of t "ACKED" "PARTIALLY_FILLED" ≡ false
submitted_idle t e = rw e

-- What a settlement may leave behind: all as it was, or a raise and one more id.
abbrev pub Unbooked :
    ExecutionReport
    → LiveExecutionPositionBridge
    → Result OrderState × LiveExecutionPositionBridge
    → Type 0
Unbooked report b (r, b') =
    (b' ≡ b)
    ⊎ ((is_ok r ≡ false)
        × (b'.oms ≡ b.oms)
        × (b'.position ≡ b.position)
        × (elem (execution_key report) b.dedup ≡ false)
        × (elem (execution_key report) b'.dedup ≡ true))

book-raises :
    (c : BrokerOrderCommand) (report : ExecutionReport) (b : LiveExecutionPositionBridge)
    → (is_ok (book c report b).0 ≡ false) × ((book c report b).1 ≡ b)
unfolding book
book-raises c report b = elim (Result-cases (apply_execution report b.oms).0) [
  | inl (s, e) ↦ ground (arith, execution_raises report b.oms)
  | inr (x, e) ↦ (ground arith, ground (arith, execution_raises report b.oms))
]

consume-Unbooked :
    (c : BrokerOrderCommand) (report : ExecutionReport) (state : OrderState)
    (b : LiveExecutionPositionBridge)
    → Unbooked report b (consume c report state b)
unfolding consume accept
consume-Unbooked c report state b =
    let key = execution_key report in
    let b' = record b { dedup = key ∷ b.dedup } in
    let raised = book-raises c report b' in
    elim (Bool-cases (truthy key && not (elem key b.dedup))) [
      | inl new ↦ inr (
        ground (arith, raised),
        ground (arith, raised),
        ground (arith, raised),
        ground arith,
        ground (arith, raised, eq_iff key key),
      )
      | inr old ↦ inl (ground arith)
    ]

-- A settlement books nothing, whatever the state: either it leaves all parts as they were, or it
-- raises and has used up the execution's id, which was new, while the orders and the position stay as
-- they were.
pub settle-Unbooked :
    (report : ExecutionReport) (b : LiveExecutionPositionBridge)
    → Unbooked report b (settle report b)
unfolding settle settle_new
settle-Unbooked report b = elim (Option-cases (get_state report.client_order_id b.oms)) [
  | inl absent ↦ inl (ground arith)
  | inr (state, found) ↦
      elim (Result-cases (get_broker_order_command report.broker_order_id b.oms)) [
        | inr (x, e) ↦ inl (ground arith)
        | inl (c, e) ↦ ground (arith, consume-Unbooked c report state b)
      ]
]

-- With a state machine that its method calls lead to, a settlement leaves all parts as they were, and
-- it returns exactly for an event of a known order whose id was seen before.
pub settle_reached :
    (report : ExecutionReport) (b : LiveExecutionPositionBridge)
    → Reach b.oms
    → ((settle report b).1 ≡ b)
      × (is_ok (settle report b).0
          ≡ not (is_none (get_state report.client_order_id b.oms))
            && truthy (execution_key report)
            && contains_id (execution_key report) b.dedup)
unfolding settle settle_new get_state
settle_reached report b r = elim (Option-cases (lookup report.client_order_id b.oms.states)) [
  | inl absent ↦ (ground arith, ground arith)
  | inr (state, found) ↦
      let submitted = Reach-IsSubmitted report.client_order_id state r found in
      let idle = submitted_idle state.status submitted.status_submitted in
      (ground (arith, idle), ground (arith, idle))
]
