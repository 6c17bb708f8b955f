-- ===== src/Strategy/Track3/Evaluation.antt =====
-- `Track3StatisticalArbitrage.evaluate_input` and `_close` of
-- core/strategy/track3_statistical_arbitrage.py.
use kospi200_project.Base.{
  ℕ, ◌+◌, ◌-◌, String, Bool, true, false, not, ◌&&◌, ◌||◌, Option, none, some, is_none, [], ◌∷◌,
  if◌then◌else◌, ltb, eqb,
}
use kospi200_project.Base.Int.{pos, leb_ℤ}
use kospi200_project.Base.Text.{◌==◌, append, truthy}
use kospi200_project.Base.Print.{print_ℤ}
use kospi200_project.Strategy.Track3.{
  Reals, Track3MarketInput, Track3Result, Track3Config, Track3State, num, dec, before,
}
use kospi200_project.Strategy.Track3.Measures.{
  calculate_z_score, detect_market_regime, estimate_round_trip_cost,
  calculate_expected_gross_profit, calculate_options_carry_and_theta, entry_terms,
}

-- The format `04d`.
unfoldable pub padded : ℕ → String
unfolding print_ℤ
padded n =
    append (if ltb n 10 then "000" else if ltb n 100 then "00" else if ltb n 1000 then "0" else "")
      (print_ℤ (pos n))

unfoldable pub group_id_of : String → ℕ → String
unfolding padded
group_id_of date_str sequence =
    append "ARB-GROUP-" (
      append (if truthy date_str then date_str else "UNKNOWN")
        (append "-TRACK3-" (padded sequence)))

module _ {F : Type 0} (reals : Reals F) where
  -- `reset`, and the fields of a new strategy.
  abbrev pub reset_state : Track3State F
  reset_state = record {
    active_position = none;
    active_group_id = none;
    group_sequence = 0;
    cooldown_ticks = 0;
    holding_ticks = 0;
    last_exit_z_score = none;
    group_integrity = true;
    position_group_legs = [];
    arb_high_pnl = num reals 0;
    current_date = "";
  }

  abbrev result_of : String → String → F → Track3Result F
  result_of status regime z_score = record {
    status = status;
    regime = regime;
    z_score = z_score;
    signals = [];
  }

  -- The first statement of `evaluate_input`: a new date forgets the position.
  unfoldable pub roll_over : Track3MarketInput F → Track3State F → Track3State F
  roll_over input s =
      if truthy input.date_str && not (input.date_str == s.current_date)
      then record s {
        current_date = input.date_str;
        cooldown_ticks = 0;
        holding_ticks = 0;
        active_position = none;
        active_group_id = none;
        last_exit_z_score = none;
        position_group_legs = [];
        group_integrity = true;
      }
      else s

  unfoldable pub cool_down : Track3State F → Track3State F
  cool_down s = record s { cooldown_ticks = s.cooldown_ticks - 1 }

  -- From the choice of the position on.
  unfoldable pub enter :
      String
      → F
      → F
      → ℕ
      → String
      → Track3MarketInput F
      → Track3State F
      → Track3Result F × Track3State F
  unfolding group_id_of
  enter regime z_score net qty position input s =
      let sequence = s.group_sequence + 1 in
      let id = group_id_of input.date_str sequence in
      let first = if position == "SHORT_SPREAD" then "FUTURES_SHORT" else "FUTURES_LONG" in
      (
        record {
          status = "ENTER";
          regime = regime;
          z_score = z_score;
          signals =
              record {
                action = "EXECUTE_STAT_ARB";
                direction = position;
                reason = "Z-score entry and expected net profit satisfied";
                group_id = some id;
                qty = qty;
                expected_net_pnl = some net;
              }
              ∷ [];
        },
        record s {
          group_sequence = sequence;
          active_group_id = some id;
          active_position = some position;
          holding_ticks = 0;
          arb_high_pnl = num reals 0;
          group_integrity = true;
          position_group_legs =
              record { group_id = id; leg_type = first; qty = qty }
              ∷ record { group_id = id; leg_type = "HEDGE_LEG"; qty = qty }
              ∷ [];
        },
      )

  abbrev pub old_dislocation : F → Option F → Bool
  old_dislocation z none = false
  old_dislocation z (some last) = reals.lt (reals.absolute (reals.sub z last)) (dec reals 8 1)

  -- The profitability, then the side of the position.
  unfoldable pub choose_side :
      String
      → F
      → F × F × ℕ
      → F
      → Track3MarketInput F
      → Track3State F
      → Track3Result F × Track3State F
  unfolding enter
  choose_side regime z_score (threshold, min_profit, qty) net input s =
      if reals.lt net min_profit
      then (result_of "PROFITABILITY_BLOCK" regime z_score, s)
      else if reals.le threshold z_score
      then enter regime z_score net qty "SHORT_SPREAD" input s
      else if reals.le z_score (reals.neg threshold)
      then enter regime z_score net qty "LONG_SPREAD" input s
      else (result_of "HOLD" regime z_score, s)

  unfoldable pub net_profit : Track3Config F → String → F → F × F × ℕ → Track3MarketInput F → F
  unfolding estimate_round_trip_cost calculate_expected_gross_profit
  net_profit config regime z_score (threshold, min_profit, qty) input =
      reals.sub (calculate_expected_gross_profit reals z_score input.spread_history qty)
        (estimate_round_trip_cost reals config regime qty input)

  unfoldable pub choose :
      Track3Config F
      → String
      → F
      → Track3MarketInput F
      → Track3State F
      → Track3Result F × Track3State F
  unfolding entry_terms net_profit choose_side
  choose config regime z_score input s =
      let terms = entry_terms reals config regime z_score input in
      choose_side regime z_score terms (net_profit config regime z_score terms input) input s

  -- Without a position.
  unfoldable pub evaluate_flat :
      Track3Config F
      → String
      → F
      → Track3MarketInput F
      → Track3State F
      → Track3Result F × Track3State F
  unfolding choose
  evaluate_flat config regime z_score input s =
      if not (before input.time_str "15:00:00")
        || regime == "EXTREME_MOVE"
        || not (eqb s.cooldown_ticks 0)
      then (result_of "ENTRY_BLOCK" regime z_score, s)
      else if regime == "GAP" && not (input.market_stable && input.spread_normalizing)
      then (result_of "GAP_UNSTABLE_HOLD" regime z_score, s)
      else if old_dislocation z_score s.last_exit_z_score
      then (result_of "OLD_DISLOCATION_BLOCK" regime z_score, s)
      else choose config regime z_score input s

  -- `_close`, with the one signal of the exits.
  unfoldable pub close :
      String → F → String → String → Option F → ℕ → Track3State F → Track3Result F × Track3State F
  close status z_score direction reason net cooldown s = (
    record {
      status = status;
      regime = "";
      z_score = z_score;
      signals =
          record {
            action = "CLOSE_STAT_ARB";
            direction = direction;
            reason = reason;
            group_id = s.active_group_id;
            qty = 1;
            expected_net_pnl = net;
          }
          ∷ [];
    },
    record s {
      last_exit_z_score = some z_score;
      active_position = none;
      active_group_id = none;
      position_group_legs = [];
      cooldown_ticks = cooldown;
      holding_ticks = 0;
    },
  )

  -- The trailing lock of the highest profit.
  unfoldable pub profit_locked : F → F → F → Bool
  profit_locked high spent effective_pnl =
      let ratio = reals.div high spent in
      let trailing =
        if reals.le (num reals 2) ratio
        then dec reals 90 2
        else if reals.le (dec reals 13 1) ratio
        then dec reals 88 2
        else dec reals 85 2 in
      reals.lt (num reals 30000) high && reals.le effective_pnl (reals.mul high trailing)

  abbrev is_short : Track3State F → Bool
  is_short s = elim s.active_position [ some p ↦ p == "SHORT_SPREAD" | none ↦ false ]

  abbrev is_long : Track3State F → Bool
  is_long s = elim s.active_position [ some p ↦ p == "LONG_SPREAD" | none ↦ false ]

  unfoldable pub converged : Track3Config F → F → Track3State F → Bool
  converged config z_score s =
      (is_short s && reals.le z_score config.z_exit_threshold)
      || (is_long s && reals.le (reals.neg config.z_exit_threshold) z_score)

  unfoldable pub stopped_out : Track3Config F → F → Track3State F → Bool
  stopped_out config z_score s =
      (is_short s && reals.le config.z_stop_loss_threshold z_score)
      || (is_long s && reals.le z_score (reals.neg config.z_stop_loss_threshold))

  unfoldable pub profitable : String → F → F → Bool → Bool
  profitable regime effective_pnl net_exit is_converged =
      reals.le (reals.neg (num reals 5000)) net_exit
      || (regime == "HIGH_VOLATILITY" && reals.lt (num reals 10000) effective_pnl)
      || (regime == "GAP" && is_converged && reals.lt (num reals 5000) effective_pnl)

  abbrev close_direction : Track3State F → String
  close_direction s = if is_short s then "CLOSE_SHORT_SPREAD" else "CLOSE_LONG_SPREAD"

  -- The exits in their order, by their conditions.
  unfoldable pub exit_or_hold :
      Bool → Bool → Bool → Bool → String → F → F → Track3State F → Track3Result F × Track3State F
  unfolding close
  exit_or_hold locked stopped late settled regime z_score net_exit s =
      let direction = close_direction s in
      if locked
      then close "TRAILING_PROFIT_LOCK" z_score direction "high-watermark trailing profit lock" none
          20 s
      else if stopped
      then close "STOP_LOSS" z_score direction "extreme Z-score stop loss" none 40 s
      else if late
      then close "TIMEOUT_EXIT" z_score direction "maximum holding time reached" none 20 s
      else if settled
      then close "CLOSED" z_score direction "convergence + profitability + integrity"
          (some net_exit) 20 s
      else (result_of "HOLD" regime z_score, s)

  -- From the update of the highest profit on.
  unfoldable pub watch :
      Track3Config F
      → String
      → F
      → Track3MarketInput F
      → Track3State F
      → Track3Result F × Track3State F
  unfolding calculate_options_carry_and_theta estimate_round_trip_cost profit_locked converged
      stopped_out profitable exit_or_hold
  watch config regime z_score input s =
      let effective_pnl =
        reals.add input.current_pnl (calculate_options_carry_and_theta reals input) in
      let high = reals.maximum s.arb_high_pnl effective_pnl in
      let net_exit =
        reals.sub (reals.sub effective_pnl input.total_fees)
          (estimate_round_trip_cost reals config regime 1 input) in
      exit_or_hold
        (profit_locked high (reals.maximum (num reals 1) input.premium_spent) effective_pnl)
        (stopped_out config z_score s) (leb_ℤ config.max_holding_ticks (pos s.holding_ticks))
        (converged config z_score s
          && profitable regime effective_pnl net_exit (converged config z_score s)
          && s.group_integrity)
        regime z_score net_exit (record s { arb_high_pnl = high })

  -- With a position.
  unfoldable pub evaluate_held :
      Track3Config F
      → String
      → F
      → Track3MarketInput F
      → Track3State F
      → Track3Result F × Track3State F
  unfolding close watch
  evaluate_held config regime z_score input s =
      let s' = record s { holding_ticks = s.holding_ticks + 1 } in
      if not (before input.time_str "15:15:00")
      then close "MARKET_CLOSE_FLATTEN" z_score (close_direction s)
          "15:15 atomic position-group close" none 20 s'
      else watch config regime z_score input s'

  unfoldable pub evaluate_input :
      Track3Config F → Track3MarketInput F → Track3State F → Track3Result F × Track3State F
  unfolding roll_over cool_down calculate_z_score detect_market_regime evaluate_flat evaluate_held
  evaluate_input config input s =
      let (z_score, valid) = calculate_z_score reals input.spread_history in
      let regime = detect_market_regime reals input in
      let s' = cool_down (roll_over input s) in
      if not valid
      then (result_of "HOLD" regime z_score, s')
      else if is_none s'.active_position
      then evaluate_flat config regime z_score input s'
      else evaluate_held config regime z_score input s'
