-- ===== src/Oms/Router.antt =====
-- core/oms/order_router.py: `StandardOrderRouter.register_and_route`. The broker adapter is not
-- under the repository's control here: it is an argument, a function on the world `W` that it
-- changes. `none` stands for an argument or a result that is `None` or not of the required type.
pub mod Routing
mod Tests
use kospi200_project.Base.{
  String, Bool, true, false, not, Option, none, some, is_none, if◌then◌else◌,
}
use kospi200_project.Base.Text.{◌==◌}
use kospi200_project.Base.Exn.{Result, ok, err, raise, bind, order_router_error}
use kospi200_project.Contracts.{BrokerOrderCommand, BrokerOrderResponse, to_order_ack_event}
use kospi200_project.Oms.Fsm.{OrderState, OrderStateMachine, apply_intent, apply_ack, get_state}

-- `broker.submit`; `none` is a response of another type.
abbrev pub Submit : Type 0 → Type 0
Submit W = BrokerOrderCommand → W → Result (Option BrokerOrderResponse) × W

abbrev reject {ℓ} : {A : Type ℓ} → String → Result A
reject m = raise order_router_error m

abbrev pub Routed : Type 0 → Type 0
Routed W = Result BrokerOrderResponse × OrderStateMachine × W

-- The order is registered first, unless its id is known.
pub register : BrokerOrderCommand → OrderStateMachine → Result (Unit {0}) × OrderStateMachine
register command m =
    if is_none (get_state command.client_order_id m)
    then (let (r, m') = apply_intent command.client_order_id command.quantity m in
        (bind r (λ _. ok tt), m'))
    else (ok tt, m)

module _ {W : Type 0} where
  -- The checks on the response, and the acknowledgement.
  acknowledge : BrokerOrderCommand → BrokerOrderResponse → OrderStateMachine → W → Routed W
  acknowledge command response m w =
      if not (response.client_order_id == command.client_order_id)
      then (reject "BROKER_RESPONSE_CLIENT_ORDER_ID_MISMATCH", m, w)
      else elim (to_order_ack_event response) [
        | err e ↦ (err e, m, w)
        | ok event ↦ let (r, m') = apply_ack event m in (bind r (λ _. ok response), m', w)
      ]

  -- `response = submit(command)` and what follows it.
  dispatch : Submit W → BrokerOrderCommand → OrderStateMachine → W → Routed W
  unfolding acknowledge
  dispatch submit command m w =
      let (r, w') = submit command w in
      elim r [
        | err e ↦ (err e, m, w')
        | ok none ↦ (reject "BROKER_ORDER_RESPONSE_REQUIRED", m, w')
        | ok (some response) ↦ acknowledge command response m w'
      ]

  -- `broker` is the adapter that the call or the router names; `some none` has no `submit`.
  unfoldable pub register_and_route :
      {T : Type 0}
      → Option BrokerOrderCommand
      → Option T
      → Option (Option (Submit W))
      → OrderStateMachine
      → W
      → Routed W
  unfolding register dispatch
  register_and_route command token broker m w = elim command [
    | none ↦ (reject "BROKER_ORDER_COMMAND_REQUIRED", m, w)
    | some c ↦
        if is_none token then (reject "RISK_APPROVAL_TOKEN_REQUIRED", m, w) else elim broker [
          | none ↦ (reject "BROKER_ADAPTER_REQUIRED", m, w)
          | some none ↦ (reject "BROKER_SUBMIT_REQUIRED", m, w)
          | some (some submit) ↦
              let (r, m') = register c m in
              elim r [ err e ↦ (err e, m', w) | ok _ ↦ dispatch submit c m' w ]
        ]
  ]
