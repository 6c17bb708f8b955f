-- ===== src/Orders/Tests.antt =====
-- Runs of the order construction of core/oms/.
use kospi200_project.Base.{
  ℕ, suc, String, ◌≡◌, ◌≢◌, refl, true, false, Option, none, some, List, [], ◌∷◌, ◌⊎◌,
}
use kospi200_project.Base.Int.{pos, ◌<ℤ◌, ◌≤ℤ◌}
use kospi200_project.Base.Text.{truthy}
use kospi200_project.Base.Lists.{All, all_distinct}
use kospi200_project.Base.Dict.{lookup, insert, contains}
use kospi200_project.Base.Decimal.{
  Decimal, of_ℕ, of_int, scaled, add, div, ltd, eqd, abs_decimal, truncate, mul,
}
use kospi200_project.Base.Exn.{Result, ok}
use kospi200_project.Contracts.{
  OptionInstrumentIdentity, ExecutionLeg, MultiLegExecutionPlan, OrderIntent, BrokerOrderCommand,
}
use kospi200_project.Risk.Input.{RiskAccountInput, RiskOrderCommand}
use kospi200_project.Risk.Engine.{
  RiskEngine, RiskEvaluationResult, with_qty, total_loss, current_position, current_qty,
  expected_of, calculate_expected_position, entry_denial, limit_position, margin_ratio,
  max_affordable_qty, limit_margin, final_denial, evaluate_margin, evaluate_order,
}
use kospi200_project.Orders.Resolver.{
  ResolutionInput, resolve, resolve_identity, type_overridden, strike_overridden, Authentic,
}
use kospi200_project.Orders.Intent.{
  StrategySignal, OrderIntentExecutionInput, side_of, identity_for, input_checks, instrument_of,
  create_on_side, create, create_lem,
}
use kospi200_project.Orders.Projection.{
  PositionExecutionDecision, project_risk_effective_quantity, project_approved,
}
use kospi200_project.Orders.Materialize.{
  MultiLegExecutionSemantics, default_client_order_id, materialize_leg, resolved_leg,
  materialize_legs, materialize_multi_leg_plan, AllCarry, materialize-AllCarry,
}
use kospi200_project.Orders.Submit.{
  same_text, one_group, leg_texts, group_checks, check_command, check_leg, check_legs,
  submit_multi_leg_intents, Ready, submit_checks_only,
}
use kospi200_project.Orders.Group.{
  pending, PositionGroupLeg, PositionGroup, is_integral, Registry, register, registered, start,
  next, IsIntegral, Reach-IsIntegral, LeggingPlan,
}

abbrev call : OptionInstrumentIdentity
call = record {
  instrument_id = "201W01350";
  symbol = "201W01350";
  expiry = some "2026-01-08";
  option_type = some "CALL";
  strike = some (of_ℕ 350);
}

-- The strike is 350.0 in place of 350.
abbrev request : ResolutionInput
request = record {
  instrument_identity = some call;
  option_type_override = some "CALL";
  strike_override = some (scaled 3500 1);
}

abbrev resolved_call : OptionInstrumentIdentity
resolved_call = record call { strike = some (scaled 3500 1) }

abbrev signal : StrategySignal
signal = record {
  strategy_id = "Track1";
  direction = "SHORT";
  instrument_identity = some call;
  option_type_override = none;
  strike_override = none;
}

abbrev execution : OrderIntentExecutionInput
execution = record {
  client_order_id = "A";
  quantity = pos 2;
  requested_price = none;
  order_type = "LIMIT";
  order_purpose = "OPEN";
  asset_type = "OPTION";
  track_id = none;
  tag_id = none;
}

abbrev intent : String → String → OrderIntent
intent id leg = record {
  client_order_id = id;
  instrument_id = "201W01350";
  side = "SELL";
  quantity = pos 2;
  intent_type = "OPEN";
  strategy_id = some "Track1";
  risk_context = none;
  instrument_identity = some call;
  asset_type = some "OPTION";
  requested_price = none;
  order_type = some "LIMIT";
  order_purpose = some "OPEN";
  track_id = some "Track1";
  tag_id = none;
  group_id = some "G";
  leg_id = some leg;
}

abbrev single : OrderIntent
single = record (intent "A" "x") { track_id = none; group_id = none; leg_id = none }

create_lem_example :
    (single.quantity ≡ execution.quantity)
    × (pos 0 <ℤ single.quantity)
    × (((signal.direction ≡ "LONG") × (single.side ≡ "BUY"))
        ⊎ ((signal.direction ≡ "SHORT") × (single.side ≡ "SELL")))
    × (truthy single.instrument_id ≡ true)
    × (instrument_of single.instrument_identity ≡ single.instrument_id)
    × ((execution.asset_type ≢ "OPTION")
        ⊎ ((own r : OptionInstrumentIdentity) × (signal.instrument_identity ≡ some own)
            × (single.instrument_identity ≡ some r)
            × Authentic own r))
unfolding create create_on_side identity_for side_of input_checks resolve resolve_identity
    type_overridden strike_overridden
create_lem_example = create_lem signal execution single refl

abbrev engine : RiskEngine
engine = record {
  config = record {
    max_order_qty = pos 50;
    max_daily_loss_krw = of_ℕ 10000000;
    max_margin_utilization_ratio = scaled 85 2;
    max_position_per_instrument = pos 100;
    vol_spike_threshold_multiplier = scaled 130 2;
    margin_diet_active = false;
    account_stale_timeout_sec = of_ℕ 30;
    position_stale_timeout_sec = of_ℕ 30;
  };
  is_kill_switch_active = false;
  daily_realized_loss = of_ℕ 0;
}

abbrev account : RiskAccountInput
account = record {
  total_balance = of_ℕ 1000;
  realized_pnl = of_ℕ 0;
  used_margin = of_ℕ 100;
  free_margin = of_ℕ 900;
}

abbrev order : RiskOrderCommand
order = record {
  client_order_id = "A";
  track_id = "Track1";
  qty = pos 5;
  price = of_ℕ 10;
  side = "BUY";
  tag_id = "NORMAL";
  instrument_key = "K";
}

abbrev margin : RiskOrderCommand → Decimal
margin command = mul (of_int command.qty) (of_ℕ 10)

abbrev evaluation : RiskEvaluationResult
evaluation = evaluate_order margin engine order account none none true 7 9

evaluation_approved : evaluation.is_approved ≡ true
unfolding evaluate_order entry_denial total_loss limit_position expected_of current_position
    current_qty calculate_expected_position limit_margin max_affordable_qty final_denial
    margin_ratio evaluate_margin lookup add div ltd abs_decimal truncate mul
evaluation_approved = refl

abbrev decision : PositionExecutionDecision
decision = record {
  client_order_id = "A";
  approved_quantity = pos 5;
  requested_price = none;
  order_type = "LIMIT";
  order_purpose = "OPEN";
  asset_type = "OPTION";
  track_id = none;
  tag_id = none;
}

abbrev command : String → String → BrokerOrderCommand
command id leg = record {
  client_order_id = id;
  instrument_id = "201W01350";
  side = "BUY";
  quantity = pos 5;
  order_type = "LIMIT";
  broker_symbol = none;
  session_id = none;
  instrument_identity = none;
  asset_type = none;
  requested_price = none;
  strategy_id = none;
  order_purpose = none;
  track_id = none;
  tag_id = none;
  group_id = some "G";
  leg_id = some leg;
}

project_approved_example :
    (project_risk_effective_quantity
        (some (command "A" "x"))
        (some (with_qty order evaluation.approved_qty))
      ≡ ok (record (command "A" "x") { quantity = evaluation.approved_qty }))
    × (evaluation.approved_qty ≤ℤ (command "A" "x").quantity)
project_approved_example =
    project_approved margin engine order account none none true 7 9 (command "A" "x") refl refl
      evaluation_approved

abbrev leg : String → ExecutionLeg
leg id = record {
  leg_id = id;
  side = "SELL";
  quantity = pos 2;
  option_type = some "CALL";
  strike = some (of_ℕ 350);
  requested_price = none;
}

abbrev plan : MultiLegExecutionPlan
plan = record {
  group_id = "G";
  strategy_id = "Track1";
  legs = leg "x" ∷ leg "y" ∷ [];
  purpose = none;
}

abbrev semantics : MultiLegExecutionSemantics
semantics = record { order_type = "LIMIT"; order_purpose = "OPEN"; asset_type = "OPTION" }

abbrev intents : List OrderIntent
intents = intent "G:x" "x" ∷ intent "G:y" "y" ∷ []

materialize-AllCarry_example :
    AllCarry (λ l. ok (some call)) semantics default_client_order_id plan plan.legs intents
unfolding materialize_multi_leg_plan materialize_legs resolved_leg materialize_leg type_overridden
    strike_overridden eqd
materialize-AllCarry_example =
    materialize-AllCarry (λ l. ok (some call)) semantics default_client_order_id plan intents refl

abbrev mapper : OrderIntent → Result (Option BrokerOrderCommand)
mapper i = ok (some (record (command i.client_order_id "x") { leg_id = i.leg_id }))

abbrev supplier : OrderIntent → BrokerOrderCommand → Result (Option ℕ)
supplier i c = ok (some (suc 0))

-- The router would count the orders.
abbrev counter : BrokerOrderCommand → ℕ → ℕ → Result ℕ × ℕ
counter c t w = (ok t, suc w)

abbrev no_responses : List ℕ
no_responses = []

submit_checks_only_example :
    All (λ i. i.group_id ≡ some "G") intents
    × (all_distinct (leg_texts intents) ≡ true)
    × All (Ready mapper supplier) intents
    × (no_responses ≡ [])
    × ((submit_multi_leg_intents mapper supplier intents (some counter) 0).1 ≡ 0)
unfolding submit_multi_leg_intents group_checks one_group same_text check_legs check_leg
    check_command
submit_checks_only_example =
    submit_checks_only mapper supplier (intent "G:x" "x") (intent "G:y" "y" ∷ []) (some counter) 0
      no_responses refl

abbrev group_leg : String → PositionGroupLeg
group_leg id = record {
  leg_id = id;
  group_id = "G";
  instrument_id = "201W01350";
  side = "BUY";
  quantity = pos 1;
  status = pending;
}

abbrev group : PositionGroup
group = record {
  group_id = "G";
  strategy_id = "Track3";
  direction = "LONG";
  legs = group_leg "x" ∷ group_leg "y" ∷ [];
}

abbrev one_group_registry : Registry
one_group_registry = (register group []).1

Reach-IsIntegral_example : IsIntegral "G" group
unfolding register is_integral contains lookup insert
Reach-IsIntegral_example = Reach-IsIntegral "G" group (next start (registered group [])) refl

abbrev empty : Registry
empty = []

abbrev legging : LeggingPlan
legging = record { group_id = "G"; first_leg = group_leg "x"; second_leg = group_leg "y" }
