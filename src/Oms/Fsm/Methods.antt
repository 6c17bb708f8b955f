-- ===== src/Oms/Fsm/Methods.antt =====
-- What each mutating method of core/oms/oms_fsm.py does, on every branch.
use kospi200_project.Base.{
  String, ◌≡◌, true, false, some, ◌⊎◌, inl, inr, arith, Bool-cases, Option-cases, if◌then◌else◌,
}
use kospi200_project.Base.Int.{ℤ, pos, ◌<ℤ◌, leb_ℤ}
use kospi200_project.Base.Text.{◌==◌, eq_iff, strip, truthy, or_empty}
use kospi200_project.Base.Dict.{lookup, insert, contains, lookup-insert}
use kospi200_project.Base.Exn.{ok, is_ok}
use kospi200_project.Contracts.{BrokerOrderCommand, OrderAckEvent}
use kospi200_project.Oms.Fsm.{
  OrderState, OrderStateMachine, submitted, taken, apply_intent, register_broker_order_command,
  apply_ack,
}

-- Which intents are accepted: a stripped id that is not empty and not in use, and a positive
-- quantity.
abbrev pub IsNewIntent : String → ℤ → OrderStateMachine → Type 0
IsNewIntent id q m =
    (truthy (strip id) ≡ true) × (pos 0 <ℤ q) × (contains (strip id) m.states ≡ false)

-- `apply_intent` either accepts a new intent, stores it as SUBMITTED with its quantity under the
-- stripped id and changes no other order and no correlation; or it raises, the intent is not new,
-- and the machine stays as it was.
pub apply_intent_cases :
    (id : String) (q : ℤ) (m : OrderStateMachine)
    → (IsNewIntent id q m
        × ((apply_intent id q m).0 ≡ ok (submitted (strip id) q))
        × ((apply_intent id q m).1.states ≡ insert (strip id) (submitted (strip id) q) m.states)
        × ((apply_intent id q m).1.broker_to_client ≡ m.broker_to_client))
      ⊎ (¬ IsNewIntent id q m
          × (is_ok (apply_intent id q m).0 ≡ false)
          × ((apply_intent id q m).1 ≡ m))
unfolding apply_intent
apply_intent_cases id q m = elim (Bool-cases (truthy (strip id))) [
  | inr empty ↦ inr (λ n. cc (n.0), ground arith, ground arith)
  | inl named ↦ elim (Bool-cases (leb_ℤ q (pos 0))) [
    | inl low ↦ inr (λ n. ground arith, ground arith, ground arith)
    | inr high ↦ elim (Bool-cases (contains (strip id) m.states)) [
      | inl old ↦ inr (λ n. cc (n.2), ground arith, ground arith)
      | inr new ↦ inl ((named, ground arith, new), ground arith, ground arith, ground arith)
    ]
  ]
]

-- `apply_ack` returns no state for any event: it raises, and it changes no order.
pub apply_ack_raises :
    (event : OrderAckEvent) (m : OrderStateMachine)
    → (is_ok (apply_ack event m).0 ≡ false) × ((apply_ack event m).1.states ≡ m.states)
unfolding apply_ack
apply_ack_raises event m = (ground arith, ground arith)

-- What the correlation holds before `apply_ack` it holds after: a broker id is never moved to
-- another client order.
pub apply_ack_keeps_correlation :
    (event : OrderAckEvent) (m : OrderStateMachine) (broker_id client : String)
    → lookup broker_id m.broker_to_client ≡ some client
    → lookup broker_id (apply_ack event m).1.broker_to_client ≡ some client
unfolding apply_ack
apply_ack_keeps_correlation event m b c e =
    let id = strip event.client_order_id in
    let own = strip (or_empty event.broker_order_id) in
    elim (Bool-cases (taken own id m)) [
      | inl clash ↦ ground (arith, lookup-insert own b id m.broker_to_client)
      | inr free ↦
          ground (arith, lookup-insert own b id m.broker_to_client, eq_iff own b, eq_iff c id)
    ]

-- A registered command has the quantity of its order, and is stored with the order's other fields
-- unchanged; every other order and the correlation stay as they were.
pub register_command_stored :
    (command : BrokerOrderCommand) (m : OrderStateMachine) (s : OrderState) (k : String)
    → (register_broker_order_command command m).0 ≡ ok s
    → let id = strip command.client_order_id in
      let m' = (register_broker_order_command command m).1 in
      (old : OrderState) × (lookup id m.states ≡ some old)
      × (s ≡ record old { broker_order_command = some command })
      × (command.quantity ≡ old.order_quantity)
      × (lookup k m'.states ≡ (if id == k then some s else lookup k m.states))
      × (m'.broker_to_client ≡ m.broker_to_client)
unfolding register_broker_order_command
register_command_stored c m s k e =
    elim (Option-cases (lookup (strip c.client_order_id) m.states)) [
      | inl absent ↦ ground arith
      | inr (old, found) ↦ (
        old,
        found,
        ground arith,
        ground arith,
        ground (
          arith,
          lookup-insert (strip c.client_order_id) k (record old { broker_order_command = some c })
              m.states,
        ),
        ground arith,
      )
    ]
