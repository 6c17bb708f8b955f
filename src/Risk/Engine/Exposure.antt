-- ===== src/Risk/Engine/Exposure.antt =====
-- Quantities in core/risk/risk_engine.py: what the two reductions leave of an order, and the
-- position that it leads to.
use kospi200_project.Base.{
  String, ◌≡◌, refl, Bool, true, false, Option, none, some, [], ◌∷◌, arith, ◌⊎◌, inl, inr,
}
use kospi200_project.Base.Text.{eq_iff}
use kospi200_project.Base.Dict.{lookup}
use kospi200_project.Position.Net.{is_side, signed}
use kospi200_project.Base.Int.{ℤ, pos, ◌+ℤ◌, ◌-ℤ◌, ◌<ℤ◌, ◌≤ℤ◌, abs}
use kospi200_project.Base.Decimal.{Decimal, ltd}
use kospi200_project.Risk.Input.{RiskAccountInput, RiskPosition, Positions, RiskOrderCommand}
use kospi200_project.Risk.Engine.{
  RiskEngine, with_qty, current_position, current_qty, expected_of, limit_position, limit_margin,
}

-- An order is carried over with its quantity at most lowered.
pub record Reduced (command final : RiskOrderCommand) : Type 0 where
  pub shape : final ≡ with_qty command final.qty
  pub some_qty : pos 0 <ℤ final.qty
  pub no_more : final.qty ≤ℤ command.qty

pub limit_position-Reduced :
    (e : RiskEngine) (command final : RiskOrderCommand) (positions : Option Positions) (red : Bool)
    → pos 0 <ℤ command.qty
    → limit_position e command positions red ≡ inr final
    → Reduced command final
unfolding limit_position
limit_position-Reduced e c f ps red h eq = ground arith

pub limit_margin-Reduced :
    (margin : RiskOrderCommand → Decimal) (command final : RiskOrderCommand)
    (account : RiskAccountInput) (red : Bool)
    → pos 0 <ℤ command.qty
    → limit_margin margin command account red ≡ inr final
    → Reduced command final
unfolding limit_margin
limit_margin-Reduced margin c f a red h eq = ground arith

-- Without a reduction the order passes whole, and its margin is covered.
pub limit_margin_whole :
    (margin : RiskOrderCommand → Decimal) (command final : RiskOrderCommand)
    (account : RiskAccountInput) (red : Bool)
    → limit_margin margin command account red ≡ inr final
    → (final ≡ command) × (ltd account.free_margin (margin final) ≡ false)
      ⊎ ((red ≡ true) × (final.qty <ℤ command.qty))
unfolding limit_margin
limit_margin_whole margin c f a red eq = ground arith

-- The quantity after an order, from the current position.
abbrev pub after : RiskOrderCommand → Option RiskPosition → ℤ → ℤ
after command current q = (expected_of (with_qty command q) current).1

-- A smaller positive order ends within the limit if a larger one does, from within the limit.
pub after_mono :
    (command : RiskOrderCommand) (current : Option RiskPosition) (q q' limit : ℤ)
    → pos 0 ≤ℤ current_qty current
    → current_qty current ≤ℤ limit
    → pos 0 <ℤ q
    → q ≤ℤ q'
    → after command current q' ≤ℤ limit
    → after command current q ≤ℤ limit
unfolding expected_of current_qty ◌+ℤ◌ ◌-ℤ◌
after_mono c none q q' limit low high h le fits = omega arith
after_mono c (some p) q q' limit low high h le fits = ground arith

-- What the limit leaves as capacity ends within the limit.
after_capacity :
    (command : RiskOrderCommand) (current : Option RiskPosition) (limit : ℤ)
    → pos 0 ≤ℤ current_qty current
    → pos 0 <ℤ limit -ℤ current_qty current
    → after command current (limit -ℤ current_qty current) ≤ℤ limit
unfolding expected_of current_qty ◌+ℤ◌ ◌-ℤ◌
after_capacity c none limit low room = ground arith
after_capacity c (some p) limit low room = ground arith

limit_position_cases :
    (e : RiskEngine) (command final : RiskOrderCommand) (positions : Option Positions) (red : Bool)
    → limit_position e command positions red ≡ inr final
    → let limit = e.config.max_position_per_instrument in
      let current = current_position command.instrument_key positions in
      (final.qty ≡ command.qty) × ((expected_of command current).1 ≤ℤ limit)
      ⊎ ((final.qty ≡ limit -ℤ current_qty current) × (pos 0 <ℤ limit -ℤ current_qty current))
unfolding limit_position
limit_position_cases e c f ps red eq = ground arith

-- What the limit lets through ends within the limit.
pub limit_position_fits :
    (e : RiskEngine) (command final : RiskOrderCommand) (positions : Option Positions) (red : Bool)
    → pos 0 ≤ℤ current_qty (current_position command.instrument_key positions)
    → current_qty (current_position command.instrument_key positions)
      ≤ℤ e.config.max_position_per_instrument
    → pos 0 <ℤ command.qty
    → limit_position e command positions red ≡ inr final
    → after command (current_position command.instrument_key positions) final.qty
      ≤ℤ e.config.max_position_per_instrument
limit_position_fits e c f ps red low high h eq =
    let current = current_position c.instrument_key ps in
    elim (limit_position_cases e c f ps red eq) [
      | inl (same, fits) ↦ rw same fits
      | inr (rest, room) ↦
          rw rest (after_capacity c current e.config.max_position_per_instrument low room)
    ]

-- What is held of the instrument itself, whatever else is held.
unfoldable pub own_position : String → Option Positions → Option RiskPosition
own_position key none = none
own_position key (some positions) = lookup key positions

unfoldable pub signed_position : Option RiskPosition → ℤ
unfolding signed
signed_position none = pos 0
signed_position (some p) = signed p.side p.qty

-- A quantity from 0 to the limit is held, on one of the two sides; without a position it is 0.
abbrev pub HeldWithin : ℤ → Option RiskPosition → Type 0
HeldWithin limit none = pos 0 ≤ℤ limit
HeldWithin limit (some p) = (is_side p.side ≡ true) × (pos 0 ≤ℤ p.qty) × (p.qty ≤ℤ limit)

-- The instrument is in the map of positions, or the map is not that of a single other instrument.
abbrev pub HasOwnPlace : String → Option Positions → Type 0
HasOwnPlace key none = Unit
HasOwnPlace key (some ((other, _) ∷ [])) = other ≡ key
HasOwnPlace key (some _) = Unit

-- In its own place a position is the one that the engine reads.
pub current-own :
    (key : String) (positions : Option Positions)
    → HasOwnPlace key positions
    → current_position key positions ≡ own_position key positions
unfolding current_position own_position lookup
current-own key none h = refl
current-own key (some []) h = refl
current-own key (some ((other, p) ∷ [])) h = ground (arith, h, eq_iff other key)
current-own key (some (a ∷ b ∷ ps)) h = ground arith

side_cases : (side : String) → is_side side ≡ true → (side ≡ "BUY") ⊎ (side ≡ "SELL")
side_cases side h = ground (arith, eq_iff side "BUY", eq_iff side "SELL")

-- The quantity that the engine expects is the size of the signed sum.
pub after-abs :
    (limit : ℤ) (command : RiskOrderCommand) (current : Option RiskPosition) (q : ℤ)
    → HeldWithin limit current
    → is_side command.side ≡ true
    → pos 0 <ℤ q
    → pos (abs (signed_position current +ℤ signed command.side q)) ≡ after command current q
unfolding expected_of signed_position signed ◌+ℤ◌ ◌-ℤ◌
after-abs limit c none q h side low = ground arith
after-abs limit c (some p) q h side low = elim (side_cases p.side h.0) [
  | inl held_buy ↦ elim (side_cases c.side side) [
    | inl buy ↦ rw (held_buy, buy) (ground arith)
    | inr sell ↦ rw (held_buy, sell) (ground arith)
  ]
  | inr held_sell ↦ elim (side_cases c.side side) [
    | inl buy ↦ rw (held_sell, buy) (ground arith)
    | inr sell ↦ rw (held_sell, sell) (ground arith)
  ]
]

pub held_bounds :
    (limit : ℤ) (current : Option RiskPosition)
    → HeldWithin limit current
    → (pos 0 ≤ℤ current_qty current) × (current_qty current ≤ℤ limit)
unfolding current_qty
held_bounds limit none h = (omega arith, h)
held_bounds limit (some p) h = (h.1, h.2)
