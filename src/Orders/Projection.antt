-- ===== src/Orders/Projection.antt =====
-- How an evaluated risk decision reaches an order: core/oms/risk_order_intent_adapter.py
-- (`build_order_intent_execution_input`) and core/oms/risk_approved_broker_command_adapter.py
-- (`project_risk_effective_quantity`). The decision is one of the three that the risk engine gives,
-- so the branch for an unknown text is left out.
use kospi200_project.Base.{
  ℕ, String, ◌≡◌, Bool, true, false, not, ◌||◌, Option, none, some, arith, ◌⊎◌, inl, inr,
  Bool-cases, if◌then◌else◌,
}
use kospi200_project.Base.Int.{ℤ, pos, ◌≤ℤ◌, ltb_ℤ, leb_ℤ, eqb_ℤ}
use kospi200_project.Base.Text.{◌==◌, eq_iff}
use kospi200_project.Base.Decimal.{Decimal}
use kospi200_project.Base.Exn.{
  Result, ok, err, is_ok, raise, risk_order_intent_mapping_error,
  risk_approved_broker_command_error,
}
use kospi200_project.Contracts.{BrokerOrderCommand}
use kospi200_project.Risk.Input.{RiskAccountInput, Positions, RiskOrderCommand}
use kospi200_project.Risk.Sensor.{RiskSensorSnapshot}
use kospi200_project.Risk.Engine.{
  RiskEngine, deny, allow, reduce, RiskEvaluationResult, with_qty, evaluate_order,
}
use kospi200_project.Risk.Engine.Approval.{approval_lem}
use kospi200_project.Orders.Intent.{OrderIntentExecutionInput}

-- core/oms/position_execution_policy.py: the execution semantics of the position side.
pub record PositionExecutionDecision : Type 0 where
  pub client_order_id : String
  pub approved_quantity : ℤ
  pub requested_price : Option Decimal
  pub order_type : String
  pub order_purpose : String
  pub asset_type : String
  pub track_id : Option String
  pub tag_id : Option String

abbrev reject {ℓ} : {A : Type ℓ} → String → Result A
reject m = raise risk_order_intent_mapping_error m

-- The quantity that the result allows, before the last check. A refusal raises without a message:
-- the argument is a comment.
unfoldable pub effective_quantity : RiskEvaluationResult → Result ℤ
effective_quantity result = if not result.is_approved then reject "" else elim result.decision [
  | deny ↦ reject ""
  | allow ↦ ok result.approved_qty
  | reduce ↦ elim result.reduced_command [
    | none ↦ reject "REDUCED_QUANTITY_REQUIRED"
    | some c ↦
        if eqb_ℤ result.approved_qty c.qty
        then ok c.qty
        else reject "RISK_QUANTITY_PROVENANCE_MISMATCH"
  ]
]

abbrev pub input_of : PositionExecutionDecision → ℤ → OrderIntentExecutionInput
input_of decision quantity = record {
  client_order_id = decision.client_order_id;
  quantity = quantity;
  requested_price = decision.requested_price;
  order_type = decision.order_type;
  order_purpose = decision.order_purpose;
  asset_type = decision.asset_type;
  track_id = decision.track_id;
  tag_id = decision.tag_id;
}

unfoldable pub build_order_intent_execution_input :
    PositionExecutionDecision → RiskEvaluationResult → Result OrderIntentExecutionInput
build_order_intent_execution_input decision result = elim (effective_quantity result) [
  | err e ↦ err e
  | ok quantity ↦
      if leb_ℤ quantity (pos 0)
      then reject "APPROVED_QUANTITY_REQUIRED"
      else ok (input_of decision quantity)
]

abbrev refuse {ℓ} : {A : Type ℓ} → String → Result A
refuse m = raise risk_approved_broker_command_error m

-- `none` stands for an argument that is `None`.
unfoldable pub project_risk_effective_quantity :
    Option BrokerOrderCommand → Option RiskOrderCommand → Result BrokerOrderCommand
project_risk_effective_quantity none effective = refuse "BROKER_ORDER_COMMAND_REQUIRED"
project_risk_effective_quantity (some original) none = refuse "RISK_EFFECTIVE_COMMAND_REQUIRED"
project_risk_effective_quantity (some original) (some effective) =
    if not (original.client_order_id == effective.client_order_id)
    then refuse "CLIENT_ORDER_ID_MISMATCH"
    else if leb_ℤ original.quantity (pos 0) || leb_ℤ effective.qty (pos 0)
    then refuse "QUANTITY_REQUIRED"
    else if ltb_ℤ original.quantity effective.qty
    then refuse "RISK_QUANTITY_INCREASE_FORBIDDEN"
    else ok (record original { quantity = effective.qty })

module _ (margin : RiskOrderCommand → Decimal) (e : RiskEngine) (command : RiskOrderCommand)
    (account : RiskAccountInput) (positions : Option Positions) (sensor : Option RiskSensorSnapshot)
    (allow_reduction : Bool) (order_id now : ℕ) where
  abbrev result : RiskEvaluationResult
  result = evaluate_order margin e command account positions sensor allow_reduction order_id now

  -- For every order that the risk engine evaluates: an approval gives an execution input with
  -- exactly the approved quantity and the other values of the position side, and a refusal gives
  -- none.
  pub build_input_of_evaluation :
      (decision : PositionExecutionDecision)
      → ((result.is_approved ≡ true)
          × (build_order_intent_execution_input decision result
              ≡ ok (input_of decision result.approved_qty)))
        ⊎ ((result.is_approved ≡ false)
            × (is_ok (build_order_intent_execution_input decision result) ≡ false))
  unfolding build_order_intent_execution_input effective_quantity
  build_input_of_evaluation decision = elim (Bool-cases result.is_approved) [
    | inr refused ↦ inr (refused, ground arith)
    | inl good ↦
        let facts =
          approval_lem margin e command account positions sensor allow_reduction order_id now
            good in
        inl (good, ground (arith, facts))
  ]

  -- The quantity of an approved order can always be projected onto the broker's command for it,
  -- if that has the id and the quantity of the evaluated order: only the quantity changes, and
  -- never upwards.
  pub project_approved :
      (original : BrokerOrderCommand)
      → original.client_order_id ≡ command.client_order_id
      → original.quantity ≡ command.qty
      → result.is_approved ≡ true
      → (project_risk_effective_quantity
            (some original)
            (some (with_qty command result.approved_qty))
          ≡ ok (record original { quantity = result.approved_qty }))
        × (result.approved_qty ≤ℤ original.quantity)
  unfolding project_risk_effective_quantity
  project_approved original same quantity good =
      let facts =
        approval_lem margin e command account positions sensor allow_reduction order_id now good in
      (
        ground (arith, facts, eq_iff original.client_order_id command.client_order_id),
        ground (arith, facts),
      )
