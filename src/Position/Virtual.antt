-- ===== src/Position/Virtual.antt =====
-- environments/virtual/position/virtual_position_aggregate.py: `VirtualPositionAggregate`.
-- Prices are Python floats, which antt lacks: their type and arithmetic are a parameter.
use kospi200_project.Base.{
  String, ◌≡◌, Bool, true, false, not, Option, none, some, arith, Bool-cases, Option-cases,
  if◌then◌else◌, ◌⊎◌, inl, inr, [], ◌∷◌,
}
use kospi200_project.Base.Int.{ℤ, pos, ◌+ℤ◌, ◌-ℤ◌, ◌<ℤ◌, ltb_ℤ, leb_ℤ, eqb_ℤ}
use kospi200_project.Base.Text.{◌==◌, eq_iff, truthy}
use kospi200_project.Base.Dict.{Dict}
use kospi200_project.Base.Decimal.{Decimal}
use kospi200_project.Base.Exn.{Result, ok, raise, Method, value_error, runtime_error}
use kospi200_project.Position.Net.{is_side, signed, net}

-- IEEE floats, as far as the code uses them.
pub record Floats : Type 1 where
  pub Float : Type 0
  pub add : Float → Float → Float
  pub mul : Float → Float → Float
  pub div : Float → Float → Float
  pub of_int : ℤ → Float
  pub of_decimal : Decimal → Float

-- core/position/position_aggregate.py: what the pre-trade risk check reads.
pub record PositionAggregate (F : Type 0) : Type 0 where
  pub side : String
  pub qty : ℤ
  pub avg_price : Option F

pub record VirtualPositionAggregate (F : Type 0) : Type 0 where
  pub instrument_id : String
  pub side : Option String
  pub qty : ℤ
  pub avg_price : Option F

module _ (floats : Floats) where
  open floats use {Float, add, mul, div, of_int}

  abbrev pub Position : Type 0
  Position = VirtualPositionAggregate Float

  -- The average price after a fill on the position's own side.
  increased_price : Option Float → ℤ → Option Float → ℤ → Option Float
  increased_price avg old_qty price quantity = elim price [
    | none ↦ avg
    | some p ↦ elim avg [
      | none ↦ some p
      | some a ↦ some (
          div (add (mul a (of_int old_qty)) (mul p (of_int quantity)))
            (of_int (old_qty +ℤ quantity)))
    ]
  ]

  abbrev opened : String → ℤ → Option Float → Position → Position
  opened side quantity price p = record p { side = some side; qty = quantity; avg_price = price }

  offset : String → ℤ → Option Float → Position → Position
  offset side quantity price p =
      if ltb_ℤ quantity p.qty
      then record p { qty = p.qty -ℤ quantity }
      else if eqb_ℤ quantity p.qty
      then record p { side = none; qty = pos 0; avg_price = none }
      else opened side (quantity -ℤ p.qty) price p

  -- `self.side == side`
  abbrev on_side : Option String → String → Bool
  on_side own side = elim own [ none ↦ false | some s ↦ s == side ]

  unfoldable pub apply_fill : String → ℤ → Option Float → Method Position (Unit {0})
  unfolding increased_price offset
  apply_fill side quantity price p =
      if not (truthy side)
      then (raise value_error "POSITION_AGGREGATE_SIDE_REQUIRED", p)
      else if not (is_side side)
      then (raise value_error "POSITION_AGGREGATE_SIDE_INVALID", p)
      else if leb_ℤ quantity (pos 0)
      then (raise value_error "POSITION_AGGREGATE_QTY_REQUIRED", p)
      else if eqb_ℤ p.qty (pos 0)
      then (ok tt, opened side quantity price p)
      else if on_side p.side side
      then (
        ok tt,
        record p {
          qty = p.qty +ℤ quantity;
          avg_price = increased_price p.avg_price p.qty price quantity;
        },
      )
      else (ok tt, offset side quantity price p)

  unfoldable pub snapshot : Position → Result (Dict (PositionAggregate Float))
  snapshot p = if eqb_ℤ p.qty (pos 0) then ok [] else elim p.side [
    | none ↦ raise runtime_error "POSITION_AGGREGATE_SIDE_REQUIRED"
    | some side ↦
        ok ((p.instrument_id, record { side = side; qty = p.qty; avg_price = p.avg_price }) ∷ [])
  ]

  -- Flat with no side, or a known side with a positive quantity.
  abbrev pub IsValid : Position → Type 0
  IsValid p = elim p.side [ none ↦ p.qty ≡ pos 0 | some s ↦ (is_side s ≡ true) × (pos 0 <ℤ p.qty) ]

  -- On a valid position a fill with a known side and a positive quantity always succeeds, leaves a
  -- valid position of the same instrument, and moves the signed quantity by exactly the signed
  -- quantity of the fill.
  pub virtual_apply_fill-net :
      (side : String) (quantity : ℤ) (price : Option Float) (p : Position)
      → IsValid p
      → truthy side ≡ true
      → is_side side ≡ true
      → pos 0 <ℤ quantity
      → let (r, p') = apply_fill side quantity price p in
        (r ≡ ok tt)
        × IsValid p'
        × (p'.instrument_id ≡ p.instrument_id)
        × (net p'.side p'.qty ≡ net p.side p.qty +ℤ signed side quantity)
  unfolding apply_fill net ◌+ℤ◌ ◌-ℤ◌
  virtual_apply_fill-net side quantity price p v given known some_qty = elim (Option-cases p.side) [
    | inl flat ↦ ground arith
    | inr (own, e) ↦ elim (Bool-cases (own == side)) [
      | inl same ↦ ground (arith, eq_iff own side)
      | inr opposite ↦ ground (
        arith,
        eq_iff own side,
        eq_iff side "BUY",
        eq_iff side "SELL",
        eq_iff own "BUY",
        eq_iff own "SELL",
      )
    ]
  ]

  -- The snapshot of a valid position never raises: it is empty exactly for a flat position, and
  -- otherwise reports the position's side and quantity under its instrument.
  pub snapshot_lem :
      (p : Position)
      → IsValid p
      → ((p.side ≡ none) × (snapshot p ≡ ok []))
        ⊎ ((s : String) × (p.side ≡ some s)
            × (snapshot p
                ≡ ok (
                    (p.instrument_id, record { side = s; qty = p.qty; avg_price = p.avg_price })
                    ∷ [])))
  unfolding snapshot
  snapshot_lem p v = elim (Option-cases p.side) [
    | inl flat ↦ inl (flat, ground arith)
    | inr (own, e) ↦ inr (own, e, ground arith)
  ]
