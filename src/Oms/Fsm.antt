-- ===== src/Oms/Fsm.antt =====
-- core/oms/oms_fsm.py: `OrderStateMachine`. A status is Python text. In this revision the lines
-- that hold the arguments of two constructor calls are comments, so `apply_ack` calls
-- `OrderState` with one positional argument and `apply_execution` calls it with none; both
-- calls raise `TypeError`, as does the division of an empty tuple before the latter.
pub mod Reach
pub mod Methods
mod Tests
use kospi200_project.Base.{
  String, Bool, true, false, not, ◌&&◌, ◌||◌, Option, none, some, is_none, if◌then◌else◌, [],
}
use kospi200_project.Base.Int.{ℤ, pos, ◌+ℤ◌, ◌-ℤ◌, ltb_ℤ, leb_ℤ, eqb_ℤ}
use kospi200_project.Base.Text.{◌==◌, truthy, truthy?, or_empty, strip}
use kospi200_project.Base.Dict.{Dict, lookup, insert, contains}
use kospi200_project.Base.Decimal.{Decimal, is_positive}
use kospi200_project.Base.Exn.{
  Result, ok, err, raise, raise_if, bind, Method, order_state_transition_error, type_error,
}
use kospi200_project.Contracts.{BrokerOrderCommand, OrderAckEvent, ExecutionReport}

pub record OrderState : Type 0 where
  pub client_order_id : String
  pub status : String
  pub broker_order_id : Option String
  pub order_quantity : ℤ
  pub filled_quantity : ℤ
  pub broker_order_command : Option BrokerOrderCommand
  pub average_execution_price : Option Decimal

pub record ExecutionCorrelation : Type 0 where
  pub client_order_id : String
  pub broker_order_id : String
  pub order_quantity : ℤ
  pub prior_filled_quantity : ℤ
  pub prior_average_price : Option Decimal

pub record OrderStateMachine : Type 0 where
  pub states : Dict OrderState
  pub broker_to_client : Dict String

-- `OrderStateMachine()`
abbrev pub new_machine : OrderStateMachine
new_machine = record { states = []; broker_to_client = [] }

abbrev reject {ℓ} : {A : Type ℓ} → String → Result A
reject m = raise order_state_transition_error m

-- `status in {a, b}`
abbrev pub is_one_of : String → String → String → Bool
is_one_of s a b = s == a || s == b

abbrev submitted : String → ℤ → OrderState
submitted id quantity = record {
  client_order_id = id;
  status = "SUBMITTED";
  broker_order_id = none;
  order_quantity = quantity;
  filled_quantity = pos 0;
  broker_order_command = none;
  average_execution_price = none;
}

abbrev store : String → OrderState → OrderStateMachine → OrderStateMachine
store id state m = record m { states = insert id state m.states }

-- `apply_intent`, which reads of an intent (or a command) its id and its quantity.
unfoldable pub apply_intent : String → ℤ → Method OrderStateMachine OrderState
apply_intent intent_id quantity m =
    let id = strip intent_id in
    if not (truthy id)
    then (reject "CLIENT_ORDER_ID_REQUIRED", m)
    else if leb_ℤ quantity (pos 0)
    then (reject "ORDER_QUANTITY_INVALID", m)
    else if contains id m.states
    then (reject "ORDER_INTENT_ALREADY_REGISTERED", m)
    else (ok (submitted id quantity), store id (submitted id quantity) m)

-- Whether the command names an instrument other than its identity does.
abbrev identity_mismatch : BrokerOrderCommand → Bool
identity_mismatch command = elim command.instrument_identity [
  | none ↦ false
  | some identity ↦ not (command.instrument_id == identity.instrument_id)
]

command_checks : BrokerOrderCommand → OrderState → Result (Unit {0})
command_checks command current =
    if not (is_one_of current.status "SUBMITTED" "ACKED")
    then reject "BROKER_COMMAND_AFTER_INVALID_STATE"
    else if not (eqb_ℤ command.quantity current.order_quantity)
    then reject "BROKER_COMMAND_QUANTITY_MISMATCH"
    else if identity_mismatch command
    then reject "BROKER_COMMAND_INSTRUMENT_ID_MISMATCH"
    else ok tt

unfoldable pub register_broker_order_command :
    BrokerOrderCommand → Method OrderStateMachine OrderState
unfolding command_checks
register_broker_order_command command m =
    let id = strip command.client_order_id in
    if not (truthy id) then (reject "CLIENT_ORDER_ID_REQUIRED", m) else elim (lookup id m.states) [
      | none ↦ (reject "ORDER_NOT_REGISTERED", m)
      | some current ↦ elim (command_checks command current) [
        | err e ↦ (err e, m)
        | ok _ ↦
            let state = record current { broker_order_command = some command } in
            (ok state, store id state m)
      ]
    ]

-- The checks of `apply_ack` before its first write.
ack_checks : OrderAckEvent → OrderState → Result (Unit {0})
ack_checks event current =
    if not (is_one_of current.status "SUBMITTED" "ACKED")
    then reject "ACK_AFTER_TERMINAL_STATE"
    else if event.accepted && not (truthy? event.broker_order_id)
    then reject "BROKER_ORDER_ID_REQUIRED_FOR_ACCEPTED_ACK"
    else ok tt

-- Whether the broker's id belongs to another client order already.
abbrev taken : String → String → OrderStateMachine → Bool
taken broker_id id m = elim (lookup broker_id m.broker_to_client) [
  | none ↦ false
  | some previous ↦ not (previous == id)
]

-- `OrderState("ACKED" if event.accepted else "REJECTED")`: the status is missing.
abbrev missing_status : Result OrderState
missing_status =
    raise type_error "OrderState.__init__() missing 1 required positional argument: 'status'"

unfoldable pub apply_ack : OrderAckEvent → Method OrderStateMachine OrderState
unfolding ack_checks
apply_ack event m =
    let id = strip event.client_order_id in
    if not (truthy id) then (reject "CLIENT_ORDER_ID_REQUIRED", m) else elim (lookup id m.states) [
      | none ↦ (reject "ORDER_NOT_REGISTERED", m)
      | some current ↦ elim (ack_checks event current) [
        | err e ↦ (err e, m)
        | ok _ ↦
            let broker_id = strip (or_empty event.broker_order_id) in
            if not event.accepted
            then (missing_status, m)
            else if taken broker_id id m
            then (reject "BROKER_ORDER_ID_ALREADY_CORRELATED", m)
            else (
              missing_status,
              record m { broker_to_client = insert broker_id id m.broker_to_client },
            )
      ]
    ]

correlation : String → OrderState → Result ExecutionCorrelation
correlation broker_id state =
    if not (is_one_of state.status "ACKED" "PARTIALLY_FILLED")
    then reject "EXECUTION_CORRELATION_STATE_INVALID"
    else ok (record {
      client_order_id = state.client_order_id;
      broker_order_id = broker_id;
      order_quantity = state.order_quantity;
      prior_filled_quantity = state.filled_quantity;
      prior_average_price = state.average_execution_price;
    })

unfoldable pub resolve_execution_correlation :
    String → OrderStateMachine → Result ExecutionCorrelation
unfolding correlation
resolve_execution_correlation broker_order_id m =
    let broker_id = strip broker_order_id in
    if not (truthy broker_id)
    then reject "BROKER_ORDER_ID_REQUIRED"
    else elim (lookup broker_id m.broker_to_client) [
      | none ↦ reject "BROKER_ORDER_ID_NOT_CORRELATED"
      | some id ↦ elim (lookup id m.states) [
        | none ↦ reject "CORRELATED_ORDER_STATE_MISSING"
        | some state ↦ correlation broker_id state
      ]
    ]

registered_command : String → OrderState → Result BrokerOrderCommand
registered_command broker_id state = elim state.broker_order_command [
  | none ↦ reject "BROKER_ORDER_COMMAND_NOT_REGISTERED"
  | some command ↦ elim state.broker_order_id [
    | none ↦ reject "BROKER_ORDER_ID_MISMATCH"
    | some own ↦ if own == broker_id then ok command else reject "BROKER_ORDER_ID_MISMATCH"
  ]
]

unfoldable pub get_broker_order_command :
    Option String → OrderStateMachine → Result BrokerOrderCommand
unfolding registered_command
get_broker_order_command broker_order_id m =
    let broker_id = strip (or_empty broker_order_id) in
    if not (truthy broker_id)
    then reject "BROKER_ORDER_ID_REQUIRED"
    else elim (lookup broker_id m.broker_to_client) [
      | none ↦ reject "BROKER_ORDER_ID_NOT_CORRELATED"
      | some id ↦ elim (lookup id m.states) [
        | none ↦ reject "BROKER_ORDER_COMMAND_NOT_REGISTERED"
        | some state ↦ registered_command broker_id state
      ]
    ]

-- `report.broker_order_id and current.broker_order_id != report.broker_order_id`
abbrev pub broker_id_differs : Option String → Option String → Bool
broker_id_differs reported own = elim reported [
  | none ↦ false
  | some r ↦ truthy r && elim own [ none ↦ true | some o ↦ not (o == r) ]
]

-- The checks of `apply_execution` once the order is found.
unfoldable pub execution_checks : ExecutionReport → OrderState → Result (Unit {0})
execution_checks report current =
    let cumulative = current.filled_quantity +ℤ report.filled_quantity in
    if not (is_one_of current.status "ACKED" "PARTIALLY_FILLED")
    then reject "EXECUTION_BEFORE_ACK"
    else if not (is_one_of report.status "PARTIALLY_FILLED" "FILLED")
    then reject "UNSUPPORTED_EXECUTION_STATUS"
    else if leb_ℤ report.filled_quantity (pos 0)
    then reject "FILLED_QUANTITY_INVALID"
    else if ltb_ℤ current.order_quantity cumulative
    then reject "FILLED_QUANTITY_EXCEEDS_ORDER"
    else if not (eqb_ℤ report.remaining_quantity (current.order_quantity -ℤ cumulative))
    then reject "REMAINING_QUANTITY_MISMATCH"
    else if broker_id_differs report.broker_order_id current.broker_order_id
    then reject "BROKER_ORDER_ID_MISMATCH"
    else ok tt

-- `(report.execution_price is not None and report.execution_price > 0)`
abbrev priced : ExecutionReport → Bool
priced report = elim report.execution_price [ none ↦ false | some p ↦ is_positive p ]

-- What follows the checks: `() / Decimal(cumulative)` for a later priced fill, else `OrderState()`.
execution_state : ExecutionReport → OrderState → Result OrderState
execution_state report current =
    if priced report
      && not (eqb_ℤ current.filled_quantity (pos 0) || is_none current.average_execution_price)
    then raise type_error "unsupported operand type(s) for /: 'tuple' and 'decimal.Decimal'"
    else raise type_error
        "OrderState.__init__() missing 2 required positional arguments: 'client_order_id' and 'status'"

unfoldable pub apply_execution : ExecutionReport → Method OrderStateMachine OrderState
unfolding execution_checks execution_state
apply_execution report m = elim (lookup (strip report.client_order_id) m.states) [
  | none ↦ (reject "ORDER_NOT_REGISTERED", m)
  | some current ↦ (bind (execution_checks report current) (λ _. execution_state report current), m)
]

-- `get`, by the exact text of the id.
unfoldable pub get_state : String → OrderStateMachine → Option OrderState
get_state client_order_id m = lookup client_order_id m.states
