-- ===== src/Risk/Input.antt =====
-- core/risk/risk_input.py, core/position/position_aggregate_risk_adapter.py and the order command
-- that core/risk/risk_engine.py reads.
use kospi200_project.Base.{String, not, none, some, List, [], ◌∷◌, if◌then◌else◌}
use kospi200_project.Base.Int.{ℤ}
use kospi200_project.Base.Text.{truthy, append}
use kospi200_project.Base.Dict.{Dict, lookup, contains, insert}
use kospi200_project.Base.Decimal.{Decimal}
use kospi200_project.Base.Exn.{Result, ok, raise, bind, value_error, type_error}
use kospi200_project.Position.Virtual.{PositionAggregate}

pub record RiskAccountInput : Type 0 where
  pub total_balance : Decimal
  pub realized_pnl : Decimal
  pub used_margin : Decimal
  pub free_margin : Decimal

pub record RiskPosition : Type 0 where
  pub side : String
  pub qty : ℤ

-- `RiskPositionInput.positions`
abbrev pub Positions : Type 0
Positions = Dict RiskPosition

-- `RiskOrderCommand`; the instrument key is what `get_instrument_key()` returns.
pub record RiskOrderCommand : Type 0 where
  pub client_order_id : String
  pub track_id : String
  pub qty : ℤ
  pub price : Decimal
  pub side : String
  pub tag_id : String
  pub instrument_key : String

-- The keys that are missing from the balances, and the account input.
missing_fields : Dict Decimal → List String → List String
missing_fields balances [] = []
missing_fields balances (k ∷ ks) =
    if contains k balances then missing_fields balances ks else k ∷ missing_fields balances ks

-- `','.join(keys)`
join : List String → String
join [] = ""
join (k ∷ []) = k
join (k ∷ ks) = append k (append "," (join ks))

abbrev pub required_fields : List String
required_fields = "cash" ∷ "realized_pnl" ∷ "margin_used" ∷ "available_cash" ∷ []

field : String → Dict Decimal → Result Decimal
field k balances = elim (lookup k balances) [ some d ↦ ok d | none ↦ raise type_error k ]

-- `account_snapshot_to_risk_input`
unfoldable pub account_snapshot_to_risk_input : Dict Decimal → Result RiskAccountInput
unfolding missing_fields join field
account_snapshot_to_risk_input balances = elim (missing_fields balances required_fields) [
  | (k ∷ ks) ↦ raise value_error (append "RISK_ACCOUNT_FIELDS_REQUIRED: " (join (k ∷ ks)))
  | [] ↦ bind (field "cash" balances) λ cash. bind (field "realized_pnl" balances) λ pnl.
      bind (field "margin_used" balances) λ used. bind (field "available_cash" balances) λ free.
        ok (record {
          total_balance = cash;
          realized_pnl = pnl;
          used_margin = used;
          free_margin = free;
        })
]

-- `position_aggregate_to_risk_input`, from the snapshot of the position source. The checks on
-- types other than the empty text hold by typing.
unfoldable pub position_aggregate_to_risk_input :
    {F : Type 0} → Dict (PositionAggregate F) → Positions → Result Positions
position_aggregate_to_risk_input [] positions = ok positions
position_aggregate_to_risk_input ((key, aggregate) ∷ rest) positions =
    let continue =
      position_aggregate_to_risk_input rest
        (insert key (record { side = aggregate.side; qty = aggregate.qty }) positions) in
    if not (truthy key)
    then raise type_error "RISK_POSITION_INSTRUMENT_KEY_REQUIRED"
    else if not (truthy aggregate.side)
    then raise type_error "RISK_POSITION_SIDE_REQUIRED"
    else continue
