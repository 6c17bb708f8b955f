-- ===== src/Strategy/Track3/Measures.antt =====
-- What the third track (core/strategy/track3_statistical_arbitrage.py) computes of its input: the
-- z-score, the regime, the costs and profits, and the terms of an entry.
use kospi200_project.Base.{
  ℕ, String, Bool, true, false, not, ◌&&◌, ◌||◌, none, some, List, [], ◌∷◌, if◌then◌else◌, ltb,
}
use kospi200_project.Base.Int.{pos}
use kospi200_project.Base.Text.{◌==◌}
use kospi200_project.Base.Lists.{length, all, elem}
use kospi200_project.Strategy.Track3.{
  Reals, InputLeg, Track3MarketInput, Track3Config, num, dec, before,
}

module _ {F : Type 0} (reals : Reals F) where
  abbrev last_or : F → List F → F
  last_or d [] = d
  last_or d (x ∷ xs) = last_or x xs

  unfoldable pub calculate_z_score : List F → F × Bool
  calculate_z_score spread_series =
      if ltb (length spread_series) 10
      then (num reals 0, false)
      else if not (all reals.is_finite spread_series)
      then (num reals 0, false)
      else if reals.eq (reals.pstdev spread_series) (num reals 0)
      then (num reals 0, true)
      else (
        reals.div (reals.sub (last_or (num reals 0) spread_series) (reals.mean spread_series))
            (reals.pstdev spread_series),
        true,
      )

  unfoldable pub vol_ratio : Track3MarketInput F → F
  vol_ratio input = reals.div input.active_vol (reals.maximum (dec reals 1 1) input.base_vol)

  abbrev measured_regime : Track3MarketInput F → String
  unfolding vol_ratio
  measured_regime input =
      if input.is_gap
        || (before input.time_str "09:05:00"
            && reals.le (dec reals 8 3) (reals.absolute input.gap_pct))
      then "GAP"
      else if reals.le (dec reals 2 2) (reals.absolute input.price_change_rate)
          || reals.le (dec reals 25 1) (vol_ratio input)
      then "EXTREME_MOVE"
      else if reals.le (dec reals 14 1) (vol_ratio input)
          || reals.lt (dec reals 3 1) input.bid_ask_spread
      then "HIGH_VOLATILITY"
      else "NORMAL"

  unfoldable pub detect_market_regime : Track3MarketInput F → String
  unfolding measured_regime
  detect_market_regime input = elim input.regime [
    | none ↦ measured_regime input
    | some r ↦
        if elem r ("HIGH_VOL" ∷ "HIGH_VOLATILITY" ∷ [])
        then "HIGH_VOLATILITY"
        else if elem r ("EXTREME_MOVE" ∷ "CIRCUIT_BREAKER" ∷ "CRASH" ∷ [])
        then "EXTREME_MOVE"
        else if elem r ("GAP" ∷ "GAP_OPEN" ∷ [])
        then "GAP"
        else measured_regime input
  ]

  unfoldable pub estimate_round_trip_cost : Track3Config F → String → ℕ → Track3MarketInput F → F
  estimate_round_trip_cost config regime qty input =
      let n = reals.of_int (pos qty) in
      let spread_cost = reals.mul input.bid_ask_spread (num reals 250000) in
      let ticks =
        if regime == "NORMAL"
        then num reals 1
        else if regime == "HIGH_VOLATILITY"
        then num reals 2
        else num reals 3 in
      let slippage = reals.mul (reals.mul (reals.mul ticks (dec reals 5 2)) (num reals 250000)) n in
      reals.add
        (reals.add (reals.add (reals.mul (reals.mul (num reals 3000) (num reals 2)) n) slippage)
          (reals.mul spread_cost n))
        config.base_round_trip_cost

  unfoldable pub calculate_expected_gross_profit : F → List F → ℕ → F
  calculate_expected_gross_profit z_score spread_history qty =
      if ltb (length spread_history) 10
      then num reals 0
      else reals.mul
          (reals.mul
            (reals.mul (reals.mul (reals.absolute z_score) (reals.pstdev spread_history))
              (dec reals 8 1))
            (num reals 250000))
          (reals.of_int (pos qty))

  -- The contribution of one leg; a strike that is not positive counts nothing.
  unfoldable pub leg_pnl : F → F → InputLeg F → F
  leg_pnl total current_price leg =
      let distance =
        if leg.option_type == "CALL"
        then reals.sub current_price leg.strike
        else reals.sub leg.strike current_price in
      let market : F = elim leg.current_market_price [
        | some p ↦ p
        | none ↦ reals.maximum (num reals 0) distance
      ] in
      let points =
        if leg.side == "BUY" then reals.sub market leg.price else reals.sub leg.price market in
      if reals.le leg.strike (num reals 0)
      then total
      else reals.add total (reals.mul (reals.mul points (reals.of_int leg.qty)) (num reals 250000))

  unfoldable pub carry_of : F → F → List (InputLeg F) → F
  unfolding leg_pnl
  carry_of total current_price [] = total
  carry_of total current_price (leg ∷ legs) =
      carry_of (leg_pnl total current_price leg) current_price legs

  unfoldable pub calculate_options_carry_and_theta : Track3MarketInput F → F
  unfolding carry_of
  calculate_options_carry_and_theta input =
      carry_of (num reals 0) input.current_price input.options_legs

  -- The threshold, the profit asked for and the size of an entry.
  unfoldable pub entry_terms : Track3Config F → String → F → Track3MarketInput F → F × F × ℕ
  unfolding vol_ratio
  entry_terms config regime z_score input =
      if regime == "HIGH_VOLATILITY"
      then (
        reals.maximum (dec reals 22 1)
            (reals.mul (reals.mul config.z_entry_threshold (vol_ratio input)) (dec reals 12 1)),
        reals.mul config.min_required_profit (dec reals 15 1),
        1,
      )
      else if regime == "EXTREME_MOVE"
      then (num reals 999, reals.mul config.min_required_profit (num reals 3), 0)
      else if regime == "GAP"
      then (
        reals.maximum (num reals 2) (reals.mul config.z_entry_threshold (dec reals 11 1)),
        reals.mul config.min_required_profit (dec reals 13 1),
        1,
      )
      else (
        reals.maximum (dec reals 15 1) (reals.mul config.z_entry_threshold (vol_ratio input)),
        config.min_required_profit,
        if reals.le (dec reals 25 1) (reals.absolute z_score) && input.allow_size_up then 2 else 1,
      )
