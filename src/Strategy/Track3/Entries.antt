-- ===== src/Strategy/Track3/Entries.antt =====
-- When `Track3StatisticalArbitrage` (core/strategy/track3_statistical_arbitrage.py) enters a position.
use kospi200_project.Base.{
  ◌+◌, ◌≤◌, ◌≡◌, refl, String, Bool, true, false, none, is_none, eqb, arith, inl, inr, Bool-cases,
  Option-cases,
}
use kospi200_project.Base.Text.{◌==◌}
use kospi200_project.Strategy.Track3.{
  Reals, Track3MarketInput, Track3Result, Track3Config, Track3State, before,
}
use kospi200_project.Strategy.Track3.Measures.{calculate_z_score, detect_market_regime}
use kospi200_project.Strategy.Track3.Evaluation.{
  roll_over, cool_down, exit_or_hold, evaluate_flat, close, watch, evaluate_held, evaluate_input,
}

-- The input and the state, after the change of the date, admit an entry.
pub record MayEnter {F : Type 0} (reals : Reals F) (input : Track3MarketInput F) (s : Track3State F)
    : Type 0 where
  pub in_time : before input.time_str "15:00:00" ≡ true
  pub no_crash : (detect_market_regime reals input == "EXTREME_MOVE") ≡ false
  pub cooled_down : s.cooldown_ticks ≤ 1
  pub no_position : s.active_position ≡ none
  pub valid_series : (calculate_z_score reals input.spread_history).1 ≡ true

-- A result of an evaluation that enters no position.
record NoEntry {F : Type 0} (r : Track3Result F × Track3State F) : Type 0 where
  not_entered : (r.0.status == "ENTER") ≡ false

module _ {F : Type 0} (reals : Reals F) where
  cooled :
      (s : Track3State F) → eqb (cool_down reals s).cooldown_ticks 0 ≡ true → s.cooldown_ticks ≤ 1
  unfolding cool_down
  cooled s h = ground (arith, h)

  flat_before :
      (s : Track3State F)
      → is_none (cool_down reals s).active_position ≡ true
      → s.active_position ≡ none
  unfolding cool_down
  flat_before s h = elim (Option-cases s.active_position) [
    | inl flat ↦ flat
    | inr (p, e) ↦ ground (arith, h, e)
  ]

  exit_or_hold-NoEntry :
      (locked stopped late settled : Bool) (regime : String) (z net : F) (s : Track3State F)
      → NoEntry (exit_or_hold reals locked stopped late settled regime z net s)
  unfolding exit_or_hold close
  exit_or_hold-NoEntry true stopped late settled regime z net s = record { not_entered = refl }
  exit_or_hold-NoEntry false true late settled regime z net s = record { not_entered = refl }
  exit_or_hold-NoEntry false false true settled regime z net s = record { not_entered = refl }
  exit_or_hold-NoEntry false false false true regime z net s = record { not_entered = refl }
  exit_or_hold-NoEntry false false false false regime z net s = record { not_entered = refl }

  watch-NoEntry :
      (config : Track3Config F) (regime : String) (z : F) (input : Track3MarketInput F)
      (s : Track3State F)
      → NoEntry (watch reals config regime z input s)
  unfolding watch
  watch-NoEntry config regime z input s = search exit_or_hold-NoEntry

  evaluate_held-NoEntry :
      (config : Track3Config F) (regime : String) (z : F) (input : Track3MarketInput F)
      (s : Track3State F)
      → NoEntry (evaluate_held reals config regime z input s)
  unfolding evaluate_held close
  evaluate_held-NoEntry config regime z input s =
      elim (Bool-cases (before input.time_str "15:15:00")) [
        | inr late ↦ rw late (record { not_entered = refl })
        | inl early ↦
            rw early (
              watch-NoEntry config regime z input
                (record s { holding_ticks = s.holding_ticks + 1 }))
      ]

  flat_enters :
      (config : Track3Config F) (regime : String) (z : F) (input : Track3MarketInput F)
      (s : Track3State F)
      → ((evaluate_flat reals config regime z input s).0.status == "ENTER") ≡ true
      → (before input.time_str "15:00:00" ≡ true)
        × ((regime == "EXTREME_MOVE") ≡ false)
        × (eqb s.cooldown_ticks 0 ≡ true)
  unfolding evaluate_flat
  flat_enters config regime z input s h = elim (Bool-cases (before input.time_str "15:00:00")) [
    | inr late ↦ absurd (cc (rw late at h))
    | inl early ↦ elim (Bool-cases (regime == "EXTREME_MOVE")) [
      | inl crash ↦ absurd (cc (rw (early, crash) at h))
      | inr calm ↦ elim (Bool-cases (eqb s.cooldown_ticks 0)) [
        | inl cool ↦ (early, calm, cool)
        | inr hot ↦ absurd (cc (rw (early, calm, hot) at h))
      ]
    ]
  ]

  -- An evaluation that enters a position was made before 15:00 on a valid series of spreads, outside
  -- an extreme move, without a position and with a cooldown of at most one tick.
  pub enters-MayEnter :
      (config : Track3Config F) (input : Track3MarketInput F) (s : Track3State F)
      → ((evaluate_input reals config input s).0.status == "ENTER") ≡ true
      → MayEnter reals input (roll_over reals input s)
  unfolding evaluate_input
  enters-MayEnter config input s h =
      let rolled = roll_over reals input s in
      let s' = cool_down reals rolled in
      let z = (calculate_z_score reals input.spread_history).0 in
      let regime = detect_market_regime reals input in
      elim (Bool-cases (calculate_z_score reals input.spread_history).1) [
        | inr invalid ↦ absurd (cc (rw invalid at h))
        | inl valid ↦ elim (Bool-cases (is_none s'.active_position)) [
          | inr held ↦ absurd (
              cc (
                rw (valid, held) at h,
                (evaluate_held-NoEntry config regime z input s').not_entered,
              ))
          | inl flat ↦
              let (early, calm, cool) =
                flat_enters config regime z input s' (rw (valid, flat) at h) in
              record {
                in_time = early;
                no_crash = calm;
                cooled_down = cooled rolled cool;
                no_position = flat_before rolled flat;
                valid_series = valid;
              }
        ]
      ]
