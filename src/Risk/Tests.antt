-- ===== src/Risk/Tests.antt =====
-- Runs of the risk checks of core/risk/.
use kospi200_project.Base.{
  ℕ, String, ◌≡◌, ◌≢◌, refl, true, false, none, some, List, [], ◌∷◌, if◌then◌else◌, arith,
}
use kospi200_project.Base.Int.{pos, ◌<ℤ◌, ◌≤ℤ◌, ◌+ℤ◌, abs, ltb_ℤ}
use kospi200_project.Base.Lists.{All, length}
use kospi200_project.Base.Dict.{lookup, insert}
use kospi200_project.Base.Decimal.{
  Decimal, of_ℕ, of_int, scaled, add, div, ltd, led, abs_decimal, truncate, mul,
}
use kospi200_project.Base.Exn.{ok}
use kospi200_project.Contracts.{OrderIntent, RiskApprovalToken}
use kospi200_project.Risk.Config.{
  RiskConfig, default_config, checked_config, IsSound, checked_config-IsSound, config_decimal,
  positive_int, nonnegative_timeout,
}
use kospi200_project.Risk.Input.{RiskAccountInput, Positions, RiskOrderCommand}
use kospi200_project.Risk.Engine.{
  RiskEngine, RiskGate, RiskEvaluationResult, reduce, allow, with_qty, total_loss, current_position,
  current_qty, expected_of, calculate_expected_position, entry_denial, limit_position, margin_ratio,
  max_affordable_qty, limit_margin, final_denial, evaluate_margin, evaluate_order, admission,
  admit_order,
}
use kospi200_project.Position.Net.{signed}
use kospi200_project.Risk.Engine.Exposure.{own_position, signed_position}
use kospi200_project.Risk.Engine.Approval.{approval_lem, approval_fits, approval_covered}
use kospi200_project.Risk.MultiLeg.{
  MultiLegRiskApproval, book_leg, single_group, all_tokens, admitted_leg, admit_leg, admit_legs,
  admit_multi_leg_intents,
}
use kospi200_project.Risk.MultiLeg.Complete.{Covers, admit_multi_leg-Covers}

abbrev config : RiskConfig
config = record {
  max_order_qty = pos 50;
  max_daily_loss_krw = of_ℕ 10000000;
  max_margin_utilization_ratio = scaled 85 2;
  max_position_per_instrument = pos 100;
  vol_spike_threshold_multiplier = scaled 130 2;
  margin_diet_active = false;
  account_stale_timeout_sec = of_ℕ 30;
  position_stale_timeout_sec = of_ℕ 30;
}

defaults : checked_config default_config ≡ ok config
unfolding checked_config config_decimal positive_int nonnegative_timeout ltd
defaults = refl

checked_config-IsSound_example : IsSound config
checked_config-IsSound_example = checked_config-IsSound default_config config defaults

abbrev engine : RiskEngine
engine = record { config = config; is_kill_switch_active = false; daily_realized_loss = of_ℕ 0 }

abbrev account : RiskAccountInput
account = record {
  total_balance = of_ℕ 1000;
  realized_pnl = of_ℕ 0;
  used_margin = of_ℕ 100;
  free_margin = of_ℕ 900;
}

abbrev held : Positions
held = ("K", record { side = "BUY"; qty = pos 98 }) ∷ []

abbrev order : ℕ → RiskOrderCommand
order n = record {
  client_order_id = "A";
  track_id = "Track1";
  qty = pos n;
  price = of_ℕ 10;
  side = "BUY";
  tag_id = "NORMAL";
  instrument_key = "K";
}

-- Ten for each contract.
abbrev margin : RiskOrderCommand → Decimal
margin command = mul (of_int command.qty) (of_ℕ 10)

abbrev evaluation : ℕ → RiskEvaluationResult
evaluation n = evaluate_order margin engine (order n) account (some held) none true 7 9

-- Of five, two fit below the limit of 100.
reduced : ((evaluation 5).is_approved ≡ true) × ((evaluation 5).approved_qty ≡ pos 2)
unfolding evaluate_order entry_denial total_loss limit_position expected_of current_position
    current_qty calculate_expected_position limit_margin max_affordable_qty final_denial
    margin_ratio evaluate_margin lookup add div ltd abs_decimal truncate mul
reduced = (refl, refl)

whole : ((evaluation 2).is_approved ≡ true) × ((evaluation 2).approved_qty ≡ pos 2)
unfolding evaluate_order entry_denial total_loss limit_position expected_of current_position
    current_qty calculate_expected_position limit_margin max_affordable_qty final_denial
    margin_ratio evaluate_margin lookup add div ltd abs_decimal truncate mul
whole = (refl, refl)

approval_lem_example :
    (engine.is_kill_switch_active ≡ false)
    × ((order 5).qty ≤ℤ engine.config.max_order_qty)
    × (led engine.config.max_daily_loss_krw (total_loss engine account) ≡ false)
    × (pos 0 <ℤ (evaluation 5).approved_qty)
    × ((evaluation 5).approved_qty ≤ℤ (order 5).qty)
    × ((evaluation 5).decision
        ≡ (if ltb_ℤ (evaluation 5).approved_qty (order 5).qty then reduce else allow))
    × ((evaluation 5).reduced_command ≡ (
        if ltb_ℤ (evaluation 5).approved_qty (order 5).qty
        then some (with_qty (order 5) (evaluation 5).approved_qty)
        else none))
    × ((evaluation 5).token ≢ none)
    × (ltd engine.config.max_margin_utilization_ratio (evaluation 5).estimated_margin_ratio ≡ false)
approval_lem_example =
    approval_lem margin engine (order 5) account (some held) none true 7 9 reduced.0

approval_fits_example :
    pos (
      abs (
        signed_position (own_position "K" (some held)) +ℤ signed "BUY" (evaluation 5).approved_qty))
    ≤ℤ engine.config.max_position_per_instrument
unfolding own_position lookup
approval_fits_example =
    approval_fits margin engine (order 5) account (some held) none true 7 9 refl refl
      (refl, ground arith, ground arith) reduced.0

-- Of a single position, in another instrument, the engine takes the quantity: fifty are approved in
-- place of at most thirty.
abbrev narrow : RiskEngine
narrow = record engine { config = record config { max_position_per_instrument = pos 30 } }

abbrev elsewhere : Positions
elsewhere = ("Y", record { side = "SELL"; qty = pos 25 }) ∷ []

read_elsewhere :
    let r = evaluate_order margin narrow (order 50) account (some elsewhere) none false 7 9 in
    (r.is_approved ≡ true) × (r.approved_qty ≡ pos 50)
unfolding evaluate_order entry_denial total_loss limit_position expected_of current_position
    current_qty calculate_expected_position limit_margin max_affordable_qty final_denial
    margin_ratio evaluate_margin lookup add div ltd abs_decimal truncate mul
read_elsewhere = (refl, refl)

approval_covered_example :
    ((evaluation 2).required_margin ≡ margin (order 2))
    × (ltd account.free_margin (evaluation 2).required_margin ≡ false)
approval_covered_example =
    approval_covered margin engine (order 2) account (some held) none true 7 9 whole.0 whole.1

abbrev gate : RiskGate
gate = record { engine = engine; last_evaluation_result = none }

abbrev leg : String → OrderIntent
leg id = record {
  client_order_id = id;
  instrument_id = "201W01";
  side = "BUY";
  quantity = pos 1;
  intent_type = "OPEN";
  strategy_id = none;
  risk_context = none;
  instrument_identity = none;
  asset_type = none;
  requested_price = none;
  order_type = none;
  order_purpose = none;
  track_id = none;
  tag_id = none;
  group_id = some "G";
  leg_id = some id;
}

abbrev legs : List OrderIntent
legs = leg "put" ∷ leg "call" ∷ []

abbrev factory : OrderIntent → RiskOrderCommand
factory intent = record (order 1) { client_order_id = intent.client_order_id }

abbrev token : ℕ → String → RiskApprovalToken
token n id = record { order_id = n; timestamp_ns = 9; signature = id }

abbrev approval : MultiLegRiskApproval
approval = record {
  group_id = "G";
  approved_quantities = ("put", pos 1) ∷ ("call", pos 1) ∷ [];
  tokens =
      ("put", token 0 "SIG-RISK-APPROVED-Track1-put")
      ∷ ("call", token 1 "SIG-RISK-APPROVED-Track1-call")
      ∷ [];
  reduced_commands = [];
}

admit_multi_leg-Covers_example :
    All (λ i. i.group_id ≡ some approval.group_id) legs
    × All (λ i. Covers approval i.client_order_id) legs
    × (length approval.tokens ≡ length legs)
unfolding evaluate_order entry_denial total_loss limit_position expected_of current_position
    current_qty calculate_expected_position limit_margin max_affordable_qty final_denial
    margin_ratio evaluate_margin lookup insert add div ltd abs_decimal truncate mul admit_order
    admission book_leg single_group all_tokens admitted_leg admit_leg admit_legs
    admit_multi_leg_intents
admit_multi_leg-Covers_example =
    admit_multi_leg-Covers margin factory account (some held) none true (λ n. (n, 9)) legs gate
      approval refl
