-- ===== src/Contracts.antt =====
-- The shared data types of contracts/types.py and contracts/risk.py, and the acknowledgement
-- boundary of contracts/order_ack.py. Timestamps are numbers; the raw broker response of
-- `BrokerOrderResponse` is never read and left out.
use kospi200_project.Base.{ℕ, String, Bool, not, ◌&&◌, Option, List, map, if◌then◌else◌}
use kospi200_project.Base.Int.{ℤ, pos, leb_ℤ}
use kospi200_project.Base.Text.{truthy, truthy?}
use kospi200_project.Base.Lists.{is_empty, any, all_distinct}
use kospi200_project.Base.Decimal.{Decimal}
use kospi200_project.Base.Exn.{Result, ok, raise, value_error, order_ack_boundary_error}

pub record DataQuality : Type 0 where
  pub is_fresh : Bool
  pub is_complete : Bool
  pub source_available : Bool
  pub reason : Option String

pub record OptionInstrumentIdentity : Type 0 where
  pub instrument_id : String
  pub symbol : String
  pub expiry : Option String
  pub option_type : Option String
  pub strike : Option Decimal

pub record ExecutionLeg : Type 0 where
  pub leg_id : String
  pub side : String
  pub quantity : ℤ
  pub option_type : Option String
  pub strike : Option Decimal
  pub requested_price : Option Decimal

pub record MultiLegExecutionPlan : Type 0 where
  pub group_id : String
  pub strategy_id : String
  pub legs : List ExecutionLeg
  pub purpose : Option String

abbrev pub leg_ids : MultiLegExecutionPlan → List String
leg_ids plan = map (λ leg. leg.leg_id) plan.legs

-- `MultiLegExecutionPlan.__post_init__`: the plan as given, or the first failed check.
unfoldable pub checked_plan : MultiLegExecutionPlan → Result MultiLegExecutionPlan
checked_plan plan =
    if not (truthy plan.group_id)
    then raise value_error "group_id must be non-empty"
    else if is_empty plan.legs
    then raise value_error "MultiLegExecutionPlan requires at least one leg"
    else if not (all_distinct (leg_ids plan))
    then raise value_error "leg_id values must be unique within a plan"
    else if any (λ leg. leb_ℤ leg.quantity (pos 0)) plan.legs
    then raise value_error "leg quantity must be positive"
    else ok plan

pub record OrderIntent : Type 0 where
  pub client_order_id : String
  pub instrument_id : String
  pub side : String
  pub quantity : ℤ
  pub intent_type : String
  pub strategy_id : Option String
  pub risk_context : Option String
  pub instrument_identity : Option OptionInstrumentIdentity
  pub asset_type : Option String
  pub requested_price : Option Decimal
  pub order_type : Option String
  pub order_purpose : Option String
  pub track_id : Option String
  pub tag_id : Option String
  pub group_id : Option String
  pub leg_id : Option String

pub record BrokerOrderCommand : Type 0 where
  pub client_order_id : String
  pub instrument_id : String
  pub side : String
  pub quantity : ℤ
  pub order_type : String
  pub broker_symbol : Option String
  pub session_id : Option String
  pub instrument_identity : Option OptionInstrumentIdentity
  pub asset_type : Option String
  pub requested_price : Option Decimal
  pub strategy_id : Option String
  pub order_purpose : Option String
  pub track_id : Option String
  pub tag_id : Option String
  pub group_id : Option String
  pub leg_id : Option String

pub record BrokerOrderResponse : Type 0 where
  pub client_order_id : String
  pub accepted : Bool
  pub broker_order_id : Option String
  pub broker_code : Option String
  pub message : Option String

pub record OrderAckEvent : Type 0 where
  pub client_order_id : String
  pub accepted : Bool
  pub broker_order_id : Option String
  pub broker_code : Option String
  pub message : Option String

pub record ExecutionReport : Type 0 where
  pub client_order_id : String
  pub broker_order_id : Option String
  pub execution_id : Option String
  pub status : String
  pub filled_quantity : ℤ
  pub remaining_quantity : ℤ
  pub execution_price : Option Decimal
  pub execution_timestamp : Option ℕ
  pub source_freshness : Option DataQuality
  pub rejected_reason : Option String
  pub group_id : Option String
  pub leg_id : Option String

-- `to_order_ack_event`
unfoldable pub to_order_ack_event : BrokerOrderResponse → Result OrderAckEvent
to_order_ack_event response =
    if not (truthy response.client_order_id)
    then raise order_ack_boundary_error "CLIENT_ORDER_ID_REQUIRED"
    else if response.accepted && not (truthy? response.broker_order_id)
    then raise order_ack_boundary_error "BROKER_ORDER_ID_REQUIRED_FOR_ACCEPTED_ACK"
    else ok (record {
      client_order_id = response.client_order_id;
      accepted = response.accepted;
      broker_order_id = response.broker_order_id;
      broker_code = response.broker_code;
      message = response.message;
    })

pub record RiskApprovalToken : Type 0 where
  pub order_id : ℕ
  pub timestamp_ns : ℕ
  pub signature : String
