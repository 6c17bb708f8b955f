-- ===== src/Oms/Fsm/Tests.antt =====
-- Runs of the order state machine of core/oms/oms_fsm.py.
use kospi200_project.Base.{◌≡◌, refl, true, false, none, some, [], ◌∷◌}
use kospi200_project.Base.Int.{pos}
use kospi200_project.Base.Text.{strip}
use kospi200_project.Base.Dict.{lookup, insert, contains}
use kospi200_project.Base.Decimal.{of_ℕ}
use kospi200_project.Base.Exn.{is_ok}
use kospi200_project.Contracts.{BrokerOrderCommand, OrderAckEvent, ExecutionReport}
use kospi200_project.Oms.Fsm.{
  OrderState, OrderStateMachine, new_machine, submitted, apply_intent, apply_ack, apply_execution,
  resolve_execution_correlation, get_broker_order_command,
}
use kospi200_project.Oms.Fsm.Reach.{
  Reach, start, next, intent, ack, IsSubmitted, Reach-IsSubmitted, Reach-no_fill,
}

abbrev buy : BrokerOrderCommand
buy = record {
  client_order_id = " A ";
  instrument_id = "201W01";
  side = "BUY";
  quantity = pos 3;
  order_type = "LIMIT";
  broker_symbol = none;
  session_id = none;
  instrument_identity = none;
  asset_type = none;
  requested_price = none;
  strategy_id = none;
  order_purpose = none;
  track_id = none;
  tag_id = none;
  group_id = none;
  leg_id = none;
}

abbrev accepted : OrderAckEvent
accepted = record {
  client_order_id = "A";
  accepted = true;
  broker_order_id = some "B2";
  broker_code = none;
  message = none;
}

abbrev filled : ExecutionReport
filled = record {
  client_order_id = "A";
  broker_order_id = some "B2";
  execution_id = some "E1";
  status = "FILLED";
  filled_quantity = pos 3;
  remaining_quantity = pos 0;
  execution_price = some (of_ℕ 2);
  execution_timestamp = none;
  source_freshness = none;
  rejected_reason = none;
  group_id = none;
  leg_id = none;
}

-- One order, with a correlation of an earlier one.
abbrev one_order : OrderStateMachine
one_order = record {
  states = ("A", submitted "A" (pos 3)) ∷ [];
  broker_to_client = ("B1", "OLD") ∷ [];
}

abbrev registered : OrderStateMachine
registered = (apply_intent "A" (pos 3) new_machine).1

abbrev acknowledged : OrderStateMachine
acknowledged = (apply_ack accepted registered).1

acknowledged-Reach : Reach acknowledged
acknowledged-Reach = next (next start (intent "A" (pos 3) new_machine)) (ack accepted registered)

Reach-IsSubmitted_example : IsSubmitted "A" (submitted "A" (pos 3))
unfolding apply_intent apply_ack lookup insert strip contains
Reach-IsSubmitted_example = Reach-IsSubmitted "A" (submitted "A" (pos 3)) acknowledged-Reach refl

Reach-no_fill_example :
    (is_ok (apply_execution filled acknowledged).0 ≡ false)
    × ((apply_execution filled acknowledged).1 ≡ acknowledged)
    × (is_ok (resolve_execution_correlation "B2" acknowledged) ≡ false)
    × (is_ok (get_broker_order_command (some "B2") acknowledged) ≡ false)
Reach-no_fill_example = Reach-no_fill filled "B2" (some "B2") acknowledged-Reach

-- The accepted acknowledgement leaves its correlation behind although it raises.
apply_ack_writes :
    (apply_ack accepted one_order).1.broker_to_client ≡ ("B1", "OLD") ∷ ("B2", "A") ∷ []
unfolding apply_ack lookup insert strip
apply_ack_writes = refl

abbrev with_command : OrderState
with_command = record (submitted "A" (pos 3)) { broker_order_command = some buy }
