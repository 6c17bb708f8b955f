-- ===== src/Oms/Router/Routing.antt =====
-- Routing an order through core/oms/order_router.py, as the state machine now is.
use kospi200_project.Base.{◌≡◌, false, Option, some, ◌⊎◌, inl, inr, arith, Option-cases}
use kospi200_project.Base.Exn.{ok, is_ok, Result-cases}
use kospi200_project.Contracts.{BrokerOrderCommand, BrokerOrderResponse, to_order_ack_event}
use kospi200_project.Oms.Fsm.{OrderStateMachine}
use kospi200_project.Oms.Fsm.Methods.{apply_ack_raises}
use kospi200_project.Oms.Router.{Submit, acknowledge, dispatch, register, register_and_route}

module _ {W : Type 0} where
  acknowledge_raises :
      (c : BrokerOrderCommand) (response : BrokerOrderResponse) (m : OrderStateMachine) (w : W)
      → (is_ok (acknowledge c response m w).0 ≡ false)
        × ((acknowledge c response m w).1.states ≡ m.states)
        × ((acknowledge c response m w).2 ≡ w)
  unfolding acknowledge
  acknowledge_raises c response m w = elim (Result-cases (to_order_ack_event response)) [
    | inl (event, e) ↦ ground (arith, apply_ack_raises event m)
    | inr (x, e) ↦ ground arith
  ]

  dispatch_raises :
      (submit : Submit W) (c : BrokerOrderCommand) (m : OrderStateMachine) (w : W)
      → (is_ok (dispatch submit c m w).0 ≡ false)
        × ((dispatch submit c m w).1.states ≡ m.states)
        × ((dispatch submit c m w).2 ≡ (submit c w).1)
  unfolding dispatch
  dispatch_raises submit c m w = elim (Result-cases (submit c w).0) [
    | inr (x, e) ↦ ground arith
    | inl (response, e) ↦ elim (Option-cases response) [
      | inl other ↦ ground arith
      | inr (r, e') ↦ ground (arith, acknowledge_raises c r m (submit c w).1)
    ]
  ]

  -- Routing an order never returns a response. Either the broker is not called at all, or it is
  -- called exactly once, after the order was registered, and then the call raises as well: the
  -- order has gone out, and it stays as the registration left it.
  pub register_and_route_raises :
      {T : Type 0} (submit : Submit W) (c : BrokerOrderCommand) (token : Option T)
      (m : OrderStateMachine) (w : W)
      → let (r, m', w') = register_and_route (some c) token (some (some submit)) m w in
        (is_ok r ≡ false)
        × ((w' ≡ w)
            ⊎ (((register c m).0 ≡ ok tt)
                × (m'.states ≡ (register c m).1.states)
                × (w' ≡ (submit c w).1)))
  unfolding register_and_route
  register_and_route_raises submit c token m w = elim (Option-cases token) [
    | inl missing ↦ (ground arith, inl (ground arith))
    | inr (t, given) ↦ elim (Result-cases (register c m).0) [
      | inr (x, e) ↦ (ground arith, inl (ground arith))
      | inl (u, e) ↦
          let d = dispatch_raises submit c (register c m).1 w in
          (ground (arith, d), inr (e, ground (arith, d), ground (arith, d)))
    ]
  ]
