-- ===== src/Position/Fills.antt =====
-- The adapters that apply a broker's fill to a position:
-- environments/live/position/live_position_fill_adapter.py and
-- environments/virtual/position/virtual_position_fill_adapter.py.
use kospi200_project.Base.{
  String, ◌≡◌, true, false, not, ◌&&◌, ◌||◌, none, some, arith, Bool-cases, Option-cases,
  if◌then◌else◌, ◌⊎◌, inl, inr,
}
use kospi200_project.Base.Int.{pos, ◌+ℤ◌, ◌<ℤ◌, ◌≤ℤ◌, ltb_ℤ, leb_ℤ}
use kospi200_project.Base.Text.{◌==◌, eq_iff, truthy}
use kospi200_project.Base.Decimal.{Decimal, is_positive}
use kospi200_project.Base.Exn.{Result, ok, err, is_ok, raise, Method, value_error, Result-cases}
use kospi200_project.Contracts.{BrokerOrderCommand, ExecutionReport}
use kospi200_project.Position.Net.{is_side, signed, net}
use kospi200_project.Position.Live
use kospi200_project.Position.Live.{LivePositionAggregate}
use kospi200_project.Position.Virtual
use kospi200_project.Position.Virtual.{Floats}

-- The checks of the live adapter.
unfoldable pub live_checks :
    BrokerOrderCommand → ExecutionReport → LivePositionAggregate → Result (Unit {0})
live_checks command report p =
    if not (command.client_order_id == report.client_order_id)
    then raise value_error "CLIENT_ORDER_ID_MISMATCH"
    else if not (command.instrument_id == p.instrument_id)
    then raise value_error "INSTRUMENT_ID_MISMATCH"
    else if not (is_side command.side)
    then raise value_error "SIDE_INVALID"
    else if leb_ℤ report.filled_quantity (pos 0) || ltb_ℤ command.quantity report.filled_quantity
    then raise value_error "FILLED_QUANTITY_INVALID"
    else ok tt

-- `LivePositionFillAdapter.apply`
unfoldable pub apply_live :
    BrokerOrderCommand → ExecutionReport → Method LivePositionAggregate (Unit {0})
apply_live command report p = elim (live_checks command report p) [
  | err e ↦ (err e, p)
  | ok _ ↦ elim report.execution_price [
    | none ↦ (raise value_error "EXECUTION_PRICE_REQUIRED", p)
    | some price ↦ Live.apply_fill command.side report.filled_quantity price p
  ]
]

-- The command and the report belong together and to the position, and the fill is within the
-- command's quantity and has a positive price.
abbrev pub Matches : BrokerOrderCommand → ExecutionReport → LivePositionAggregate → Decimal → Type 0
Matches command report p price =
    (command.client_order_id ≡ report.client_order_id)
    × (command.instrument_id ≡ p.instrument_id)
    × (is_side command.side ≡ true)
    × (pos 0 <ℤ report.filled_quantity)
    × (report.filled_quantity ≤ℤ command.quantity)
    × (report.execution_price ≡ some price)
    × (is_positive price ≡ true)

Matches-checks :
    (c : BrokerOrderCommand) (r : ExecutionReport) (p : LivePositionAggregate) (price : Decimal)
    → Matches c r p price
    → live_checks c r p ≡ ok tt
unfolding live_checks
Matches-checks c r p price m =
    ground
      (arith, eq_iff c.client_order_id r.client_order_id, eq_iff c.instrument_id p.instrument_id)

checks-Matches :
    (c : BrokerOrderCommand) (r : ExecutionReport) (p : LivePositionAggregate) (price : Decimal)
    → live_checks c r p ≡ ok tt
    → r.execution_price ≡ some price
    → is_positive price ≡ true
    → Matches c r p price
unfolding live_checks
checks-Matches c r p price h e positive =
    ground
      (arith, eq_iff c.client_order_id r.client_order_id, eq_iff c.instrument_id p.instrument_id)

refused_live :
    (c : BrokerOrderCommand) (r : ExecutionReport) (p : LivePositionAggregate) (price : Decimal)
    → r.execution_price ≡ some price
    → is_positive price && is_ok (live_checks c r p) ≡ false
    → (is_ok (apply_live c r p).0 ≡ false) × ((apply_live c r p).1 ≡ p)
unfolding apply_live
refused_live c r p price e bad = elim (Bool-cases (is_positive price)) [
  | inl good ↦ ground arith
  | inr negative ↦
      let raised = Live.apply_fill_unpriced c.side r.filled_quantity price p negative in
      elim (Result-cases (live_checks c r p)) [
        | inl (u, passed) ↦ ground (arith, raised)
        | inr (x, failed) ↦ ground arith
      ]
]

-- On a valid live position a fill either matches its command, and then it moves the signed
-- quantity by the filled quantity on the command's side and leaves the position valid; or it
-- raises, does not match, and leaves the position as it was.
pub apply_live_cases :
    (command : BrokerOrderCommand) (report : ExecutionReport) (p : LivePositionAggregate)
    → Live.IsValid p
    → let (r, p') = apply_live command report p in
      ((price : Decimal) × Matches command report p price
        × (r ≡ ok tt)
        × Live.IsValid p'
        × (net p'.side p'.qty ≡ net p.side p.qty +ℤ signed command.side report.filled_quantity))
      ⊎ ((is_ok r ≡ false) × (p' ≡ p) × ((price : Decimal) → ¬ Matches command report p price))
unfolding apply_live
apply_live_cases c r p v = elim (Option-cases r.execution_price) [
  | inl missing ↦ inr (ground arith, ground arith, λ price m. cc (m.5))
  | inr (price, e) ↦ elim (Bool-cases (is_positive price && is_ok (live_checks c r p))) [
    | inl good ↦
        let m = checks-Matches c r p price (ground arith) e (ground arith) in
        let fill = Live.apply_fill-net c.side r.filled_quantity price p v m.2 m.3 m.6 in
        inl (price, m, ground (arith, fill), ground (arith, fill), ground (arith, fill))
    | inr bad ↦
        let refused = refused_live c r p price e bad in
        inr (refused.0, refused.1, λ price' m. ground (arith, Matches-checks c r p price' m))
  ]
]

-- The checks of the virtual adapter, on the position's instrument.
unfoldable pub virtual_checks : BrokerOrderCommand → ExecutionReport → String → Result (Unit {0})
virtual_checks command report instrument_id =
    if not (command.client_order_id == report.client_order_id)
    then raise value_error "POSITION_FILL_CLIENT_ORDER_ID_MISMATCH"
    else if not (command.instrument_id == instrument_id)
    then raise value_error "POSITION_FILL_INSTRUMENT_ID_MISMATCH"
    else if not (truthy command.side) || not (is_side command.side)
    then raise value_error "POSITION_FILL_SIDE_REQUIRED"
    else if leb_ℤ report.filled_quantity (pos 0)
    then raise value_error "POSITION_FILL_QTY_REQUIRED"
    else ok tt

virtual_checks_passed :
    (c : BrokerOrderCommand) (r : ExecutionReport) (instrument_id : String)
    → virtual_checks c r instrument_id ≡ ok tt
    → (c.client_order_id ≡ r.client_order_id)
      × (c.instrument_id ≡ instrument_id)
      × (truthy c.side ≡ true)
      × (is_side c.side ≡ true)
      × (pos 0 <ℤ r.filled_quantity)
unfolding virtual_checks
virtual_checks_passed c r i h =
    ground (arith, eq_iff c.client_order_id r.client_order_id, eq_iff c.instrument_id i)

-- `VirtualPositionFillAdapter.apply`
module _ (floats : Floats) where
  open floats use {of_decimal}

  unfoldable pub apply_virtual :
      BrokerOrderCommand → ExecutionReport → Method (Virtual.Position floats) (Unit {0})
  apply_virtual command report p = elim (virtual_checks command report p.instrument_id) [
    | err e ↦ (err e, p)
    | ok _ ↦ elim report.execution_price [
      | none ↦ (raise value_error "POSITION_FILL_PRICE_REQUIRED", p)
      | some price ↦
          Virtual.apply_fill floats command.side report.filled_quantity (some (of_decimal price)) p
    ]
  ]

  -- On a valid virtual position a fill that is accepted belongs to its command and to the
  -- position's instrument, moves the signed quantity by the filled quantity on the command's side
  -- and leaves the position valid; a fill that raises leaves the position as it was.
  pub apply_virtual_cases :
      (command : BrokerOrderCommand) (report : ExecutionReport) (p : Virtual.Position floats)
      → Virtual.IsValid floats p
      → let (r, p') = apply_virtual command report p in
        ((r ≡ ok tt)
          × (command.client_order_id ≡ report.client_order_id)
          × (command.instrument_id ≡ p.instrument_id)
          × Virtual.IsValid floats p'
          × (net p'.side p'.qty ≡ net p.side p.qty +ℤ signed command.side report.filled_quantity))
        ⊎ ((is_ok r ≡ false) × (p' ≡ p))
  unfolding apply_virtual
  apply_virtual_cases c r p v = elim (Result-cases (virtual_checks c r p.instrument_id)) [
    | inr (x, failed) ↦ inr (ground arith)
    | inl (u, passed) ↦ elim (Option-cases r.execution_price) [
      | inl missing ↦ inr (ground arith)
      | inr (price, e) ↦
          let (client, instrument, given, known, some_qty) =
            virtual_checks_passed c r p.instrument_id passed in
          let fill =
            Virtual.virtual_apply_fill-net floats c.side r.filled_quantity (some (of_decimal price))
              p v given known some_qty in
          inl (ground (arith, fill), client, instrument, ground (arith, fill), ground (arith, fill))
    ]
  ]
