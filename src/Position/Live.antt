-- ===== src/Position/Live.antt =====
-- environments/live/position/live_position_aggregate.py: `LivePositionAggregate`.
use kospi200_project.Base.{
  String, ◌≡◌, true, false, not, Option, none, some, is_none, arith, Bool-cases, Option-cases,
  if◌then◌else◌, inl, inr,
}
use kospi200_project.Base.Int.{ℤ, pos, ◌+ℤ◌, ◌-ℤ◌, ◌<ℤ◌, ltb_ℤ, leb_ℤ, eqb_ℤ}
use kospi200_project.Base.Text.{◌==◌, eq_iff, strip, truthy}
use kospi200_project.Base.Decimal.{Decimal, of_int, add, mul, div, is_positive}
use kospi200_project.Base.Exn.{Result, ok, is_ok, raise, Method, value_error, type_error}
use kospi200_project.Position.Net.{is_side, signed, net, IsPosition}

pub record LivePositionAggregate : Type 0 where
  pub instrument_id : String
  pub side : Option String
  pub qty : ℤ
  pub avg_price : Option Decimal

-- `LivePositionAggregate(instrument_id)`
unfoldable pub new_aggregate : String → Result LivePositionAggregate
new_aggregate instrument_id =
    if not (truthy (strip instrument_id))
    then raise value_error "INSTRUMENT_ID_REQUIRED"
    else ok
        (record { instrument_id = strip instrument_id; side = none; qty = pos 0; avg_price = none })

-- `((avg * old_qty) + (price * quantity)) / (old_qty + quantity)`
unfoldable pub weighted_average : Decimal → ℤ → Decimal → ℤ → Decimal
weighted_average avg old_qty price quantity =
    div (add (mul avg (of_int old_qty)) (mul price (of_int quantity)))
      (of_int (old_qty +ℤ quantity))

abbrev opened : String → ℤ → Decimal → LivePositionAggregate → LivePositionAggregate
opened side quantity price p = record p { side = some side; qty = quantity; avg_price = some price }

-- A fill on the position's own side; `None * qty` raises.
increase : ℤ → Decimal → Method LivePositionAggregate (Unit {0})
increase quantity price p = elim p.avg_price [
  | none ↦ (raise type_error "unsupported operand type(s) for *: 'NoneType' and 'int'", p)
  | some avg ↦ (
    ok tt,
    record p {
      qty = p.qty +ℤ quantity;
      avg_price = some (weighted_average avg p.qty price quantity);
    },
  )
]

-- A fill on the other side: it reduces, closes or flips the position.
offset : String → ℤ → Decimal → LivePositionAggregate → LivePositionAggregate
offset side quantity price p =
    if ltb_ℤ quantity p.qty
    then record p { qty = p.qty -ℤ quantity }
    else if eqb_ℤ quantity p.qty
    then record p { side = none; qty = pos 0; avg_price = none }
    else opened side (quantity -ℤ p.qty) price p

settle : String → ℤ → Decimal → Method LivePositionAggregate (Unit {0})
unfolding increase offset
settle side quantity price p = elim p.side [
  | none ↦ (ok tt, opened side quantity price p)
  | some own ↦
      if eqb_ℤ p.qty (pos 0)
      then (ok tt, opened side quantity price p)
      else if side == own
      then increase quantity price p
      else (ok tt, offset side quantity price p)
]

unfoldable pub apply_fill : String → ℤ → Decimal → Method LivePositionAggregate (Unit {0})
unfolding settle
apply_fill side quantity price p =
    if not (is_side side)
    then (raise value_error "SIDE_INVALID", p)
    else if leb_ℤ quantity (pos 0)
    then (raise value_error "QUANTITY_INVALID", p)
    else if not (is_positive price)
    then (raise value_error "PRICE_INVALID", p)
    else settle side quantity price p

abbrev pub IsValid : LivePositionAggregate → Type 0
IsValid p = IsPosition p.side p.qty (not (is_none p.avg_price))

-- On a valid position a fill with a known side, a positive quantity and a positive price always
-- succeeds, leaves a valid position of the same instrument, and moves the signed quantity by
-- exactly the signed quantity of the fill: it opens, increases, reduces, closes or flips.
pub apply_fill-net :
    (side : String) (quantity : ℤ) (price : Decimal) (p : LivePositionAggregate)
    → IsValid p
    → is_side side ≡ true
    → pos 0 <ℤ quantity
    → is_positive price ≡ true
    → let (r, p') = apply_fill side quantity price p in
      (r ≡ ok tt)
      × IsValid p'
      × (p'.instrument_id ≡ p.instrument_id)
      × (net p'.side p'.qty ≡ net p.side p.qty +ℤ signed side quantity)
unfolding apply_fill net ◌+ℤ◌ ◌-ℤ◌
apply_fill-net side quantity price p v known some_qty priced = elim (Option-cases p.side) [
  | inl flat ↦ ground arith
  | inr (own, e) ↦ elim (Bool-cases (side == own)) [
    | inl same ↦ elim (Option-cases p.avg_price) [
      | inl missing ↦ ground arith
      | inr (avg, has) ↦ ground (arith, eq_iff side own)
    ]
    | inr opposite ↦ ground (
      arith,
      eq_iff side own,
      eq_iff side "BUY",
      eq_iff side "SELL",
      eq_iff own "BUY",
      eq_iff own "SELL",
    )
  ]
]

-- What a fill does to the average price of a position on `own`: a fill on the same side takes the
-- weighted average, a smaller one on the other side leaves the price, an equal one clears it, and
-- a larger one starts from the fill's price.
pub apply_fill_price :
    (side own : String) (quantity : ℤ) (price avg : Decimal) (p : LivePositionAggregate)
    → IsValid p
    → p.side ≡ some own
    → p.avg_price ≡ some avg
    → is_side side ≡ true
    → pos 0 <ℤ quantity
    → is_positive price ≡ true
    → (apply_fill side quantity price p).1.avg_price ≡ (
        if side == own
        then some (weighted_average avg p.qty price quantity)
        else if ltb_ℤ quantity p.qty
        then some avg
        else if eqb_ℤ quantity p.qty
        then none
        else some price)
unfolding apply_fill
apply_fill_price side own quantity price avg p v e has known some_qty priced =
    elim (Bool-cases (side == own)) [ inl same ↦ ground arith | inr opposite ↦ ground arith ]

-- A fill at a price that is not positive raises and changes nothing.
pub apply_fill_unpriced :
    (side : String) (quantity : ℤ) (price : Decimal) (p : LivePositionAggregate)
    → is_positive price ≡ false
    → (is_ok (apply_fill side quantity price p).0 ≡ false)
      × ((apply_fill side quantity price p).1 ≡ p)
unfolding apply_fill
apply_fill_unpriced side quantity price p bad = ground arith
