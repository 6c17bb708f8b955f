-- ===== src/Orders/Intent.antt =====
-- core/oms/order_intent_factory.py: `OrderIntentFactory.create`, which builds an order intent from a
-- strategy's signal and the execution input of the risk side.
use kospi200_project.Base.{
  String, ◌≡◌, refl, true, not, Option, none, some, arith, ◌⊎◌, inl, inr, Bool-cases, Option-cases,
  ◌≢◌, if◌then◌else◌,
}
use kospi200_project.Base.Int.{ℤ, pos, ◌<ℤ◌, leb_ℤ}
use kospi200_project.Base.Text.{◌==◌, eq_iff, truthy}
use kospi200_project.Base.Decimal.{Decimal}
use kospi200_project.Base.Exn.{
  Result, ok, err, raise, bind, Result-cases, order_intent_validation_error,
}
use kospi200_project.Contracts.{OptionInstrumentIdentity, OrderIntent}
use kospi200_project.Orders.Resolver.{ResolutionInput, resolve, Authentic, resolve-Authentic}

-- What the factory reads of a strategy's `Signal`.
pub record StrategySignal : Type 0 where
  pub strategy_id : String
  pub direction : String
  pub instrument_identity : Option OptionInstrumentIdentity
  pub option_type_override : Option String
  pub strike_override : Option Decimal

pub record OrderIntentExecutionInput : Type 0 where
  pub client_order_id : String
  pub quantity : ℤ
  pub requested_price : Option Decimal
  pub order_type : String
  pub order_purpose : String
  pub asset_type : String
  pub track_id : Option String
  pub tag_id : Option String

abbrev reject {ℓ} : {A : Type ℓ} → String → Result A
reject m = raise order_intent_validation_error m

-- `{"LONG": "BUY", "SHORT": "SELL"}.get(direction)`
unfoldable pub side_of : String → Option String
side_of direction =
    if direction == "LONG" then some "BUY" else if direction == "SHORT" then some "SELL" else none

abbrev pub request_of : StrategySignal → ResolutionInput
request_of signal = record {
  instrument_identity = signal.instrument_identity;
  option_type_override = signal.option_type_override;
  strike_override = signal.strike_override;
}

-- The identity: resolved for an option, otherwise as the signal has it.
unfoldable pub identity_for :
    StrategySignal → OrderIntentExecutionInput → Result (Option OptionInstrumentIdentity)
identity_for signal execution =
    if execution.asset_type == "OPTION"
    then bind (resolve (request_of signal)) (λ identity. ok (some identity))
    else ok signal.instrument_identity

-- The checks on the execution input.
unfoldable pub input_checks : OrderIntentExecutionInput → Result (Unit {0})
input_checks execution =
    if leb_ℤ execution.quantity (pos 0)
    then reject "QUANTITY_REQUIRED"
    else if not (truthy execution.order_type)
    then reject "ORDER_TYPE_REQUIRED"
    else if not (truthy execution.order_purpose)
    then reject "ORDER_PURPOSE_REQUIRED"
    else if not (truthy execution.asset_type)
    then reject "ASSET_TYPE_REQUIRED"
    else ok tt

abbrev pub instrument_of : Option OptionInstrumentIdentity → String
instrument_of none = ""
instrument_of (some identity) = identity.instrument_id

abbrev intent_of :
    StrategySignal
    → OrderIntentExecutionInput
    → String
    → Option OptionInstrumentIdentity
    → OrderIntent
intent_of signal execution side identity = record {
  client_order_id = execution.client_order_id;
  instrument_id = instrument_of identity;
  side = side;
  quantity = execution.quantity;
  intent_type = execution.order_purpose;
  strategy_id = some signal.strategy_id;
  risk_context = none;
  instrument_identity = identity;
  asset_type = some execution.asset_type;
  requested_price = execution.requested_price;
  order_type = some execution.order_type;
  order_purpose = some execution.order_purpose;
  track_id = execution.track_id;
  tag_id = execution.tag_id;
  group_id = none;
  leg_id = none;
}

-- What follows the checks and the side.
unfoldable pub create_on_side :
    StrategySignal → OrderIntentExecutionInput → String → Result OrderIntent
create_on_side signal execution side = elim (identity_for signal execution) [
  | err e ↦ err e
  | ok identity ↦
      if not (truthy (instrument_of identity))
      then reject "INSTRUMENT_ID_REQUIRED"
      else ok (intent_of signal execution side identity)
]

unfoldable pub create : StrategySignal → OrderIntentExecutionInput → Result OrderIntent
create signal execution = elim (input_checks execution) [
  | err e ↦ err e
  | ok _ ↦ elim (side_of signal.direction) [
    | none ↦ reject "ORDER_SIDE_REQUIRED"
    | some side ↦ create_on_side signal execution side
  ]
]

option_resolved :
    (signal : StrategySignal) (execution : OrderIntentExecutionInput)
    (found : Option OptionInstrumentIdentity)
    → execution.asset_type ≡ "OPTION"
    → identity_for signal execution ≡ ok found
    → (r : OptionInstrumentIdentity) × (found ≡ some r) × (resolve (request_of signal) ≡ ok r)
unfolding identity_for
option_resolved signal execution found opt h = elim (Result-cases (resolve (request_of signal))) [
  | inl (r, e) ↦ (r, ground (arith, eq_iff execution.asset_type "OPTION"), e)
  | inr (x, e) ↦ ground (arith, eq_iff execution.asset_type "OPTION")
]

-- The parts of a successful run.
record Created (signal : StrategySignal) (execution : OrderIntentExecutionInput)
    (intent : OrderIntent) : Type 0 where
  side : String
  identity : Option OptionInstrumentIdentity
  checked : input_checks execution ≡ ok tt
  sided : side_of signal.direction ≡ some side
  found : identity_for signal execution ≡ ok identity
  named : truthy (instrument_of identity) ≡ true
  built : intent ≡ intent_of signal execution side identity

created :
    (signal : StrategySignal) (execution : OrderIntentExecutionInput) (intent : OrderIntent)
    → create signal execution ≡ ok intent
    → Created signal execution intent
unfolding create create_on_side
created signal execution intent h = elim (Result-cases (input_checks execution)) [
  | inr (x, e) ↦ ground arith
  | inl (u, e) ↦ elim (Option-cases (side_of signal.direction)) [
    | inl flat ↦ ground arith
    | inr (side, es) ↦ elim (Result-cases (identity_for signal execution)) [
      | inr (x, ei) ↦ ground arith
      | inl (identity, ei) ↦ record {
        side = side;
        identity = identity;
        checked = e;
        sided = es;
        found = ei;
        named = ground arith;
        built = ground arith;
      }
    ]
  ]
]

side_of_cases :
    (direction : String) {side : String}
    → side_of direction ≡ some side
    → ((direction ≡ "LONG") × (side ≡ "BUY")) ⊎ ((direction ≡ "SHORT") × (side ≡ "SELL"))
unfolding side_of
side_of_cases direction h = elim (Bool-cases (direction == "LONG")) [
  | inl long ↦ inl (ground (arith, eq_iff direction "LONG"), ground arith)
  | inr other ↦ inr (ground (arith, eq_iff direction "SHORT"), ground arith)
]

-- An intent that the factory creates has the positive quantity of the execution input, buys on a LONG
-- signal and sells on a SHORT one (another direction creates none), and has an instrument id that is
-- not empty and is the id of its identity; for an option that identity is authentic.
pub create_lem :
    (signal : StrategySignal) (execution : OrderIntentExecutionInput) (intent : OrderIntent)
    → create signal execution ≡ ok intent
    → (intent.quantity ≡ execution.quantity)
      × (pos 0 <ℤ intent.quantity)
      × (((signal.direction ≡ "LONG") × (intent.side ≡ "BUY"))
          ⊎ ((signal.direction ≡ "SHORT") × (intent.side ≡ "SELL")))
      × (truthy intent.instrument_id ≡ true)
      × (instrument_of intent.instrument_identity ≡ intent.instrument_id)
      × ((execution.asset_type ≢ "OPTION")
          ⊎ ((own r : OptionInstrumentIdentity) × (signal.instrument_identity ≡ some own)
              × (intent.instrument_identity ≡ some r)
              × Authentic own r))
unfolding input_checks
create_lem signal execution intent h =
    let c = created signal execution intent h in
    rw c.built (
      refl,
      ground (arith, c.checked),
      side_of_cases signal.direction c.sided,
      c.named,
      refl,
      elim (Bool-cases (execution.asset_type == "OPTION")) [
        | inr other ↦ inl (λ e. ground (arith, eq_iff execution.asset_type "OPTION"))
        | inl opt ↦
            let (r, e, resolved) =
              option_resolved signal execution c.identity
                ((eq_iff execution.asset_type "OPTION").0 opt) c.found in
            let (own, given, authentic, _, _, _) =
              resolve-Authentic (request_of signal) r resolved in
            inr (own, r, given, e, authentic)
      ],
    )
