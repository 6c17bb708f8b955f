-- ===== src/Oms/Fsm/Reach.antt =====
-- What is true of the order state machine (core/oms/oms_fsm.py) in every state that its four
-- mutating methods reach from an empty machine, whether they return or raise.
use kospi200_project.Base.{String, ◌≡◌, false, Option, none, some, arith, Option-cases, inl, inr}
use kospi200_project.Base.Int.{ℤ, pos, ◌<ℤ◌}
use kospi200_project.Base.Text.{eq_iff, strip, or_empty}
use kospi200_project.Base.Dict.{lookup, lookup-insert}
use kospi200_project.Base.Exn.{is_ok}
use kospi200_project.Contracts.{BrokerOrderCommand, OrderAckEvent, ExecutionReport}
use kospi200_project.Oms.Fsm.{
  OrderState, OrderStateMachine, new_machine, submitted, is_one_of, apply_intent,
  register_broker_order_command, apply_ack, apply_execution, resolve_execution_correlation,
  get_broker_order_command,
}

-- One call of a mutating method, with the state that it leaves behind.
pub data Step : OrderStateMachine → OrderStateMachine → Type 0 where
  intent : (id : String) (q : ℤ) (m : OrderStateMachine) → Step m (apply_intent id q m).1
  command :
      (c : BrokerOrderCommand) (m : OrderStateMachine)
      → Step m (register_broker_order_command c m).1
  ack : (e : OrderAckEvent) (m : OrderStateMachine) → Step m (apply_ack e m).1
  execution : (r : ExecutionReport) (m : OrderStateMachine) → Step m (apply_execution r m).1

pub data Reach : OrderStateMachine → Type 0 where
  start : Reach new_machine
  next : {m n : OrderStateMachine} → Reach m → Step m n → Reach n

-- An order that was registered under `key` and never advanced.
pub record IsSubmitted (key : String) (s : OrderState) : Type 0 where
  pub own_key : s.client_order_id ≡ key
  pub status_submitted : s.status ≡ "SUBMITTED"
  pub no_broker_id : s.broker_order_id ≡ none
  pub some_quantity : pos 0 <ℤ s.order_quantity
  pub nothing_filled : s.filled_quantity ≡ pos 0

abbrev AllSubmitted : OrderStateMachine → Type 0
AllSubmitted m = (k : String) (s : OrderState) → lookup k m.states ≡ some s → IsSubmitted k s

intent-AllSubmitted :
    (id : String) (q : ℤ) (m : OrderStateMachine)
    → AllSubmitted m
    → AllSubmitted (apply_intent id q m).1
unfolding apply_intent
intent-AllSubmitted id q m h k s e = ground (
  arith,
  h k s,
  lookup-insert (strip id) k (submitted (strip id) q) m.states,
  eq_iff (strip id) k,
)

command-AllSubmitted :
    (c : BrokerOrderCommand) (m : OrderStateMachine)
    → AllSubmitted m
    → AllSubmitted (register_broker_order_command c m).1
unfolding register_broker_order_command
command-AllSubmitted c m h k s e = elim (Option-cases (lookup (strip c.client_order_id) m.states)) [
  | inl absent ↦ ground (arith, h k s)
  | inr (old, found) ↦ ground (
    arith,
    h k s,
    h (strip c.client_order_id) old,
    lookup-insert (strip c.client_order_id) k (record old { broker_order_command = some c })
        m.states,
    eq_iff (strip c.client_order_id) k,
  )
]

ack_keeps_states : (e : OrderAckEvent) (m : OrderStateMachine) → (apply_ack e m).1.states ≡ m.states
unfolding apply_ack
ack_keeps_states e m = ground arith

execution_keeps_machine :
    (r : ExecutionReport) (m : OrderStateMachine) → (apply_execution r m).1 ≡ m
unfolding apply_execution
execution_keeps_machine r m = ground arith

Step-AllSubmitted : {m n : OrderStateMachine} → Step m n → AllSubmitted m → AllSubmitted n
Step-AllSubmitted (intent id q m) h = intent-AllSubmitted id q m h
Step-AllSubmitted (command c m) h = command-AllSubmitted c m h
Step-AllSubmitted (ack ev m) h = λ k s e. h k s (rw (ack_keeps_states ev m) at e)
Step-AllSubmitted (execution r m) h = rw (execution_keeps_machine r m) h

Reach-AllSubmitted : {m : OrderStateMachine} → Reach m → AllSubmitted m
unfolding lookup
Reach-AllSubmitted start = λ k s e. cc
Reach-AllSubmitted (next r st) = Step-AllSubmitted st (Reach-AllSubmitted r)

-- Every order of a machine that method calls lead to stands under its own id, has the status
-- SUBMITTED, no broker id, a positive quantity and nothing filled.
pub Reach-IsSubmitted :
    {m : OrderStateMachine} (k : String) (s : OrderState)
    → Reach m
    → lookup k m.states ≡ some s
    → IsSubmitted k s
Reach-IsSubmitted k s r e = Reach-AllSubmitted r k s e

submitted_not_acked :
    (t : String) → t ≡ "SUBMITTED" → is_one_of t "ACKED" "PARTIALLY_FILLED" ≡ false
submitted_not_acked t e = rw e

correlation_fails :
    (m : OrderStateMachine) (broker_id : String)
    → AllSubmitted m
    → is_ok (resolve_execution_correlation broker_id m) ≡ false
unfolding resolve_execution_correlation
correlation_fails m broker_id h =
    elim (Option-cases (lookup (strip broker_id) m.broker_to_client)) [
      | inl absent ↦ ground arith
      | inr (id, e) ↦ elim (Option-cases (lookup id m.states)) [
        | inl missing ↦ ground arith
        | inr (s, found) ↦
            ground (arith, submitted_not_acked s.status (h id s found).status_submitted)
      ]
    ]

command_fails :
    (m : OrderStateMachine) (broker_id : Option String)
    → AllSubmitted m
    → is_ok (get_broker_order_command broker_id m) ≡ false
unfolding get_broker_order_command
command_fails m broker_id h =
    elim (Option-cases (lookup (strip (or_empty broker_id)) m.broker_to_client)) [
      | inl absent ↦ ground arith
      | inr (id, e) ↦ elim (Option-cases (lookup id m.states)) [
        | inl missing ↦ ground arith
        | inr (s, found) ↦ ground (arith, h id s)
      ]
    ]

-- In every machine that method calls lead to, `apply_execution` raises and changes nothing,
-- `resolve_execution_correlation` raises and `get_broker_order_command` raises, whatever the
-- arguments: no fill is ever booked.
pub Reach-no_fill :
    {m : OrderStateMachine} (report : ExecutionReport) (broker_id : String) (id? : Option String)
    → Reach m
    → (is_ok (apply_execution report m).0 ≡ false)
      × ((apply_execution report m).1 ≡ m)
      × (is_ok (resolve_execution_correlation broker_id m) ≡ false)
      × (is_ok (get_broker_order_command id? m) ≡ false)
unfolding apply_execution
Reach-no_fill {m} report broker_id id? r = (
  ground arith,
  execution_keeps_machine report m,
  correlation_fails m broker_id (Reach-AllSubmitted r),
  command_fails m id? (Reach-AllSubmitted r),
)
