-- ===== src/Risk/Engine.antt =====
-- core/risk/risk_engine.py: `RiskEngine` and `RiskGate`. The margin calculator is a protocol that a
-- caller implements: here it is the function `margin`. The id and the time of an approval token
-- come from the operating system and are arguments. A rejection reason keeps the values that the
-- code formats into its text.
pub mod Exposure
pub mod Approval
pub mod Denial
use kospi200_project.Base.{
  ℕ, String, Bool, true, false, not, ◌&&◌, ◌||◌, Option, none, some, is_none, [], ◌∷◌, ◌⊎◌, inl,
  inr, if◌then◌else◌,
}
use kospi200_project.Base.Int.{ℤ, pos, ◌+ℤ◌, ◌-ℤ◌, ltb_ℤ, leb_ℤ, eqb_ℤ}
use kospi200_project.Base.Text.{◌==◌, truthy, append}
use kospi200_project.Base.Dict.{lookup}
use kospi200_project.Base.Decimal.{
  Decimal, of_ℕ, of_int, add, div, ltd, led, is_positive, is_negative, abs_decimal, min_decimal,
  truncate,
}
use kospi200_project.Contracts.{RiskApprovalToken}
use kospi200_project.Risk.Config.{RiskConfig}
use kospi200_project.Risk.Input.{RiskAccountInput, RiskPosition, Positions, RiskOrderCommand}
use kospi200_project.Risk.Sensor.{RiskSensorSnapshot}

pub data RejectionReason : Type 0 where
  kill_switch : RejectionReason
  invalid_order_qty : ℤ → RejectionReason
  max_order_qty max_instrument : ℤ → ℤ → RejectionReason
  max_daily_loss insufficient_free_margin max_margin_ratio : Decimal → Decimal → RejectionReason
  margin_diet : String → RejectionReason

pub data RiskDecision : Type 0 where
  deny allow reduce : RiskDecision

pub record RiskEvaluationResult : Type 0 where
  pub is_approved : Bool
  pub decision : RiskDecision
  pub original_qty : ℤ
  pub approved_qty : ℤ
  pub rejection_reason : Option RejectionReason
  pub required_margin : Decimal
  pub estimated_margin_ratio : Decimal
  pub token : Option RiskApprovalToken
  pub reduced_command : Option RiskOrderCommand

pub record RiskEngine : Type 0 where
  pub config : RiskConfig
  pub is_kill_switch_active : Bool
  pub daily_realized_loss : Decimal

unfoldable pub trigger_kill_switch : RiskEngine → RiskEngine
trigger_kill_switch e = record e { is_kill_switch_active = true }

unfoldable pub reset_kill_switch : RiskEngine → RiskEngine
reset_kill_switch e = record e { is_kill_switch_active = false }

-- `record_realized_loss`: only a negative amount counts.
unfoldable pub record_realized_loss : Decimal → RiskEngine → RiskEngine
record_realized_loss amount e =
    if is_negative amount
    then record e { daily_realized_loss = add e.daily_realized_loss (abs_decimal amount) }
    else e

-- The position that an order meets: under its instrument key, or the only one there is.
unfoldable pub current_position : String → Option Positions → Option RiskPosition
current_position key none = none
current_position key (some positions) = elim (lookup key positions) [
  | some p ↦ some p
  | none ↦ elim positions [ ((_, only) ∷ []) ↦ some only | _ ↦ none ]
]

-- Its quantity, 0 if there is none.
unfoldable pub current_qty : Option RiskPosition → ℤ
current_qty none = pos 0
current_qty (some p) = p.qty

-- `calculate_expected_position`: the side and the quantity after the order.
unfoldable pub expected_of : RiskOrderCommand → Option RiskPosition → String × ℤ
expected_of command none = (command.side, command.qty)
expected_of command (some p) =
    if eqb_ℤ p.qty (pos 0) || not (truthy p.side)
    then (command.side, command.qty)
    else if p.side == command.side
    then (p.side, p.qty +ℤ command.qty)
    else if ltb_ℤ command.qty p.qty
    then (p.side, p.qty -ℤ command.qty)
    else if eqb_ℤ command.qty p.qty
    then ("FLAT", pos 0)
    else (command.side, command.qty -ℤ p.qty)

unfoldable pub calculate_expected_position : RiskOrderCommand → Option Positions → String × ℤ
unfolding expected_of
calculate_expected_position command positions =
    expected_of command (current_position command.instrument_key positions)

abbrev denied : ℤ → RejectionReason → Decimal → Decimal → RiskEvaluationResult
denied original reason required ratio = record {
  is_approved = false;
  decision = deny;
  original_qty = original;
  approved_qty = pos 0;
  rejection_reason = some reason;
  required_margin = required;
  estimated_margin_ratio = ratio;
  token = none;
  reduced_command = none;
}

abbrev pub zero_decimal : Decimal
zero_decimal = of_ℕ 0

-- The daily loss that the order is tested against.
unfoldable pub total_loss : RiskEngine → RiskAccountInput → Decimal
total_loss e account =
    add e.daily_realized_loss (abs_decimal (min_decimal zero_decimal account.realized_pnl))

-- The checks on the engine, the quantity and the loss.
unfoldable pub entry_denial :
    RiskEngine → RiskOrderCommand → RiskAccountInput → Option RejectionReason
entry_denial e command account =
    if e.is_kill_switch_active
    then some kill_switch
    else if leb_ℤ command.qty (pos 0)
    then some (invalid_order_qty command.qty)
    else if ltb_ℤ e.config.max_order_qty command.qty
    then some (max_order_qty command.qty e.config.max_order_qty)
    else if led e.config.max_daily_loss_krw (total_loss e account)
    then some (max_daily_loss (total_loss e account) e.config.max_daily_loss_krw)
    else none

-- `dataclasses.replace(command, qty=q)`
abbrev pub with_qty : RiskOrderCommand → ℤ → RiskOrderCommand
with_qty command q = record command { qty = q }

-- The limit on the position: the command, reduced where that is allowed, or a denial.
unfoldable pub limit_position :
    RiskEngine → RiskOrderCommand → Option Positions → Bool → RejectionReason ⊎ RiskOrderCommand
unfolding calculate_expected_position
limit_position e command positions allow_reduction =
    let limit = e.config.max_position_per_instrument in
    let expected = (calculate_expected_position command positions).1 in
    let remaining = limit -ℤ current_qty (current_position command.instrument_key positions) in
    if not (ltb_ℤ limit expected)
    then inr command
    else if allow_reduction && (ltb_ℤ (pos 0) remaining && ltb_ℤ remaining command.qty)
    then inr (with_qty command remaining)
    else inl (max_instrument expected limit)

-- `(used_margin + required_margin) / total_balance`, 1 without a balance.
unfoldable pub margin_ratio : RiskAccountInput → Decimal → Decimal
margin_ratio account required =
    if is_positive account.total_balance
    then div (add account.used_margin required) account.total_balance
    else of_ℕ 1

-- The quantity that the free margin pays for.
unfoldable pub max_affordable_qty : RiskOrderCommand → Decimal → Decimal → ℤ
max_affordable_qty command required free =
    let unit =
      if ltb_ℤ (pos 0) command.qty then div required (of_int command.qty) else zero_decimal in
    if is_positive unit then truncate (div free unit) else pos 0

module _ (margin : RiskOrderCommand → Decimal) where
  -- The free margin: the command, reduced where that is allowed, or a denial. The reduced
  -- command's margin is not tested again.
  unfoldable pub limit_margin :
      RiskOrderCommand → RiskAccountInput → Bool → RejectionReason ⊎ RiskOrderCommand
  limit_margin command account allow_reduction =
      let required = margin command in
      let affordable = max_affordable_qty command required account.free_margin in
      if not (ltd account.free_margin required)
      then inr command
      else if allow_reduction && (ltb_ℤ (pos 0) affordable && ltb_ℤ affordable command.qty)
      then inr (with_qty command affordable)
      else inl (insufficient_free_margin required account.free_margin)

  -- The checks on the ratio and on the margin diet.
  unfoldable pub final_denial :
      RiskEngine
      → RiskOrderCommand
      → RiskAccountInput
      → Option RiskSensorSnapshot
      → Option RejectionReason
  final_denial e command account sensor =
      let ratio = margin_ratio account (margin command) in
      if ltd e.config.max_margin_utilization_ratio ratio
      then some (max_margin_ratio ratio e.config.max_margin_utilization_ratio)
      else elim sensor [
        | none ↦ none
        | some s ↦
            if s.is_margin_diet_required && not (command.tag_id == "RISK_HEDGE")
            then some (margin_diet s.reason)
            else none
      ]

  abbrev approved : ℕ → ℕ → ℤ → RiskOrderCommand → RiskAccountInput → RiskEvaluationResult
  approved order_id now original command account =
      let is_reduced = ltb_ℤ command.qty original in
      record {
        is_approved = true;
        decision = if is_reduced then reduce else allow;
        original_qty = original;
        approved_qty = command.qty;
        rejection_reason = none;
        required_margin = margin command;
        estimated_margin_ratio = margin_ratio account (margin command);
        token = some (record {
          order_id = order_id;
          timestamp_ns = now;
          signature =
              append "SIG-RISK-APPROVED-"
                (append command.track_id (append "-" command.client_order_id));
        });
        reduced_command = if is_reduced then some command else none;
      }

  -- The part of `evaluate_order` behind the limit on the position.
  unfoldable pub evaluate_margin :
      RiskEngine
      → ℤ
      → RiskOrderCommand
      → RiskAccountInput
      → Option RiskSensorSnapshot
      → Bool
      → ℕ
      → ℕ
      → RiskEvaluationResult
  evaluate_margin e original command account sensor allow_reduction order_id now =
      elim (limit_margin command account allow_reduction) [
        | inl reason ↦
            denied original reason (margin command) (margin_ratio account (margin command))
        | inr final ↦ elim (final_denial e final account sensor) [
          | some reason ↦
              denied original reason (margin final) (margin_ratio account (margin final))
          | none ↦ approved order_id now original final account
        ]
      ]

  unfoldable pub evaluate_order :
      RiskEngine
      → RiskOrderCommand
      → RiskAccountInput
      → Option Positions
      → Option RiskSensorSnapshot
      → Bool
      → ℕ
      → ℕ
      → RiskEvaluationResult
  evaluate_order e command account positions sensor allow_reduction order_id now =
      elim (entry_denial e command account) [
        | some reason ↦ denied command.qty reason zero_decimal zero_decimal
        | none ↦ elim (limit_position e command positions allow_reduction) [
          | inl reason ↦ denied command.qty reason zero_decimal zero_decimal
          | inr limited ↦
              evaluate_margin e command.qty limited account sensor allow_reduction order_id now
        ]
      ]

-- `RiskGate`: the engine and the last result.
pub record RiskGate : Type 0 where
  pub engine : RiskEngine
  pub last_evaluation_result : Option RiskEvaluationResult

-- What `admit_order` returns for a result.
unfoldable pub admission :
    RiskEvaluationResult → Bool × Option RiskApprovalToken × Option RejectionReason
admission result =
    if result.is_approved && not (is_none result.token)
    then (true, result.token, none)
    else (false, none, result.rejection_reason)

unfoldable pub admit_order :
    (RiskOrderCommand → Decimal)
    → RiskOrderCommand
    → RiskAccountInput
    → Option Positions
    → Option RiskSensorSnapshot
    → Bool
    → ℕ
    → ℕ
    → RiskGate
    → (Bool × Option RiskApprovalToken × Option RejectionReason) × RiskGate
unfolding admission
admit_order margin command account positions sensor allow_reduction order_id now gate =
    let result =
      evaluate_order margin gate.engine command account positions sensor allow_reduction order_id
        now in
    (admission result, record gate { last_evaluation_result = some result })
