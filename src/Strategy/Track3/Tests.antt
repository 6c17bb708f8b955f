-- ===== src/Strategy/Track3/Tests.antt =====
-- The theorems on the third track at a series of spreads whose last value stands out.
use kospi200_project.Base.{refl, true, false, some, List, [], ◌∷◌}
use kospi200_project.Base.Int.{pos}
use kospi200_project.Base.Decimal.{
  Decimal, of_int, of_ℕ, scaled, add, sub, mul, div, neg, abs_decimal, max_decimal, led, ltd, eqd,
}
use kospi200_project.Strategy.Track3.{Reals, Track3MarketInput, Track3Config}
use kospi200_project.Strategy.Track3.Evaluation.{reset_state, roll_over, evaluate_input}
use kospi200_project.Strategy.Track3.Groups.{IsGrouped, new, next, evaluates, Reach-IsGrouped}
use kospi200_project.Strategy.Track3.Entries.{MayEnter, enters-MayEnter}

-- Decimals in place of floats, with a mean of zero and a deviation of one.
abbrev decimals : Reals Decimal
unfolding add sub mul div neg abs_decimal ltd eqd
decimals = record {
  literal = λ d. d;
  of_int = of_int;
  add = add;
  sub = sub;
  mul = mul;
  div = div;
  neg = neg;
  absolute = abs_decimal;
  maximum = max_decimal;
  le = led;
  lt = ltd;
  eq = eqd;
  is_finite = λ _. true;
  mean = λ _. of_ℕ 0;
  pstdev = λ _. of_ℕ 1;
}

abbrev usual : Track3Config Decimal
usual = record {
  z_entry_threshold = of_ℕ 2;
  z_exit_threshold = scaled 2 1;
  z_stop_loss_threshold = scaled 35 1;
  max_holding_ticks = pos 300;
  min_required_profit = of_ℕ 15000;
  base_round_trip_cost = of_ℕ 10000;
}

abbrev flat_series : List Decimal
flat_series =
    of_ℕ 0 ∷ of_ℕ 0 ∷ of_ℕ 0 ∷ of_ℕ 0 ∷ of_ℕ 0 ∷ of_ℕ 0 ∷ of_ℕ 0 ∷ of_ℕ 0 ∷ of_ℕ 0 ∷ of_ℕ 3 ∷ []

abbrev jump : Track3MarketInput Decimal
jump = record {
  spread_history = flat_series;
  active_vol = of_ℕ 1;
  base_vol = of_ℕ 1;
  price_change_rate = of_ℕ 0;
  bid_ask_spread = of_ℕ 0;
  gap_pct = of_ℕ 0;
  is_gap = false;
  time_str = "10:00:00";
  market_stable = false;
  spread_normalizing = false;
  allow_size_up = false;
  current_pnl = of_ℕ 0;
  total_fees = of_ℕ 0;
  premium_spent = of_ℕ 0;
  current_price = of_ℕ 350;
  options_legs = [];
  regime = some "NORMAL";
  date_str = "2026-01-08";
}

enters-MayEnter_example : MayEnter decimals jump (roll_over decimals jump (reset_state decimals))
unfolding evaluate_input decimals
enters-MayEnter_example = enters-MayEnter decimals usual jump (reset_state decimals) refl

Reach-IsGrouped_example : IsGrouped (evaluate_input decimals usual jump (reset_state decimals)).1
Reach-IsGrouped_example =
    Reach-IsGrouped decimals usual (next new (evaluates jump (reset_state decimals)))
