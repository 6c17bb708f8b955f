-- ===== src/Strategy/Track3/Groups.antt =====
-- The position group of `Track3StatisticalArbitrage`
-- (core/strategy/track3_statistical_arbitrage.py): it stands exactly while a position is held, and the
-- strategy enters one only when it may.
use kospi200_project.Base.{
  ℕ, ◌+◌, ◌≡◌, refl, String, Bool, true, false, not, ◌&&◌, ◌||◌, none, some, is_none, [], ◌∷◌, eqb,
  ◌⊎◌, inl, inr, Bool-cases,
}
use kospi200_project.Base.Text.{◌==◌, truthy}
use kospi200_project.Strategy.Track3.{Reals, Track3MarketInput, Track3Config, Track3State, before}
use kospi200_project.Strategy.Track3.Measures.{calculate_z_score, detect_market_regime, entry_terms}
use kospi200_project.Strategy.Track3.Evaluation.{
  reset_state, roll_over, cool_down, group_id_of, enter, choose, choose_side, net_profit,
  exit_or_hold, old_dislocation, evaluate_flat, close, watch, evaluate_held, evaluate_input,
}

-- No position, no group and no legs.
pub record IsFlat {F : Type 0} (s : Track3State F) : Type 0 where
  pub no_position : s.active_position ≡ none
  pub no_group : s.active_group_id ≡ none
  pub no_legs : s.position_group_legs ≡ []

-- A position with its group: a leg on the position's side and the hedge, both of the group and of one
-- quantity.
pub record IsHeld {F : Type 0} (s : Track3State F) : Type 0 where
  pub id : String
  pub qty : ℕ
  pub side : String
  pub of_group : s.active_group_id ≡ some id
  pub on_side :
      ((s.active_position ≡ some "SHORT_SPREAD") × (side ≡ "FUTURES_SHORT"))
      ⊎ ((s.active_position ≡ some "LONG_SPREAD") × (side ≡ "FUTURES_LONG"))
  pub two_legs :
      s.position_group_legs
      ≡ (record { group_id = id; leg_type = side; qty = qty })
        ∷ (record { group_id = id; leg_type = "HEDGE_LEG"; qty = qty })
        ∷ []

abbrev pub IsGrouped : {F : Type 0} → Track3State F → Type 0
IsGrouped s = IsFlat s ⊎ IsHeld s

module _ {F : Type 0} (reals : Reals F) where
  roll_over-IsGrouped :
      (input : Track3MarketInput F) (s : Track3State F)
      → IsGrouped s
      → IsGrouped (roll_over reals input s)
  unfolding roll_over
  roll_over-IsGrouped input s h =
      elim (Bool-cases (truthy input.date_str && not (input.date_str == s.current_date))) [
        | inl new_day ↦
            rw new_day (inl (record { no_position = refl; no_group = refl; no_legs = refl }))
        | inr same_day ↦ rw same_day h
      ]

  cool_down-IsGrouped : (s : Track3State F) → IsGrouped s → IsGrouped (cool_down reals s)
  unfolding cool_down
  cool_down-IsGrouped s (inl flat) =
      inl (record {
        no_position = flat.no_position;
        no_group = flat.no_group;
        no_legs = flat.no_legs;
      })
  cool_down-IsGrouped s (inr held) = inr (record {
    id = held.id;
    qty = held.qty;
    side = held.side;
    of_group = held.of_group;
    on_side = held.on_side;
    two_legs = held.two_legs;
  })

  enter-IsGrouped :
      (regime : String) (z net : F) (qty : ℕ) (input : Track3MarketInput F) (s : Track3State F)
      → IsGrouped (enter reals regime z net qty "SHORT_SPREAD" input s).1
        × IsGrouped (enter reals regime z net qty "LONG_SPREAD" input s).1
  unfolding enter
  enter-IsGrouped regime z net qty input s = (
    inr (record {
      id = group_id_of input.date_str (s.group_sequence + 1);
      qty = qty;
      side = "FUTURES_SHORT";
      of_group = refl;
      on_side = inl (refl, refl);
      two_legs = refl;
    }),
    inr (record {
      id = group_id_of input.date_str (s.group_sequence + 1);
      qty = qty;
      side = "FUTURES_LONG";
      of_group = refl;
      on_side = inr (refl, refl);
      two_legs = refl;
    }),
  )

  choose_side-IsGrouped :
      (regime : String) (z : F) (terms : F × F × ℕ) (net : F) (input : Track3MarketInput F)
      (s : Track3State F)
      → IsGrouped s
      → IsGrouped (choose_side reals regime z terms net input s).1
  unfolding choose_side
  choose_side-IsGrouped regime z (threshold, min_profit, qty) net input s h =
      let (short, long) = enter-IsGrouped regime z net qty input s in
      elim (Bool-cases (reals.lt net min_profit)) [
        | inl little ↦ rw little h
        | inr enough ↦ elim (Bool-cases (reals.le threshold z)) [
          | inl high ↦ rw (enough, high) short
          | inr not_high ↦ elim (Bool-cases (reals.le z (reals.neg threshold))) [
            | inl low ↦ rw (enough, not_high, low) long
            | inr inside ↦ rw (enough, not_high, inside) h
          ]
        ]
      ]

  evaluate_flat-IsGrouped :
      (config : Track3Config F) (regime : String) (z : F) (input : Track3MarketInput F)
      (s : Track3State F)
      → IsGrouped s
      → IsGrouped (evaluate_flat reals config regime z input s).1
  unfolding evaluate_flat choose
  evaluate_flat-IsGrouped config regime z input s h =
      let terms = entry_terms reals config regime z input in
      let net = net_profit reals config regime z terms input in
      let chosen = choose_side-IsGrouped regime z terms net input s h in
      elim (Bool-cases (
        not (before input.time_str "15:00:00")
        || regime == "EXTREME_MOVE"
        || not (eqb s.cooldown_ticks 0))) [
          | inl blocked ↦ rw blocked h
          | inr free ↦
              elim (Bool-cases
                (regime == "GAP" && not (input.market_stable && input.spread_normalizing))) [
                  | inl unstable ↦ rw (free, unstable) h
                  | inr stable ↦ elim (Bool-cases (old_dislocation reals z s.last_exit_z_score)) [
                    | inl old ↦ rw (free, stable, old) h
                    | inr new ↦ rw (free, stable, new) chosen
                  ]
                ]
        ]

  exit_or_hold-IsGrouped :
      (locked stopped late settled : Bool) (regime : String) (z net : F) (s : Track3State F)
      → IsGrouped s
      → IsGrouped (exit_or_hold reals locked stopped late settled regime z net s).1
  unfolding exit_or_hold close
  exit_or_hold-IsGrouped true stopped late settled regime z net s h =
      inl (record { no_position = refl; no_group = refl; no_legs = refl })
  exit_or_hold-IsGrouped false true late settled regime z net s h =
      inl (record { no_position = refl; no_group = refl; no_legs = refl })
  exit_or_hold-IsGrouped false false true settled regime z net s h =
      inl (record { no_position = refl; no_group = refl; no_legs = refl })
  exit_or_hold-IsGrouped false false false true regime z net s h =
      inl (record { no_position = refl; no_group = refl; no_legs = refl })
  exit_or_hold-IsGrouped false false false false regime z net s h = h

  -- A change of the counters and of the highest profit.
  counted-IsGrouped :
      (ticks : ℕ) (high : F) (s : Track3State F)
      → IsGrouped s
      → IsGrouped (record s { holding_ticks = ticks; arb_high_pnl = high })
  counted-IsGrouped ticks high s (inl flat) =
      inl (record {
        no_position = flat.no_position;
        no_group = flat.no_group;
        no_legs = flat.no_legs;
      })
  counted-IsGrouped ticks high s (inr held) = inr (record {
    id = held.id;
    qty = held.qty;
    side = held.side;
    of_group = held.of_group;
    on_side = held.on_side;
    two_legs = held.two_legs;
  })

  evaluate_held-IsGrouped :
      (config : Track3Config F) (regime : String) (z : F) (input : Track3MarketInput F)
      (s : Track3State F)
      → IsGrouped s
      → IsGrouped (evaluate_held reals config regime z input s).1
  unfolding evaluate_held watch close
  evaluate_held-IsGrouped config regime z input s h =
      elim (Bool-cases (before input.time_str "15:15:00")) [
        | inr late ↦ rw late (inl (record { no_position = refl; no_group = refl; no_legs = refl }))
        | inl early ↦
            rw early (exit_or_hold-IsGrouped _ _ _ _ regime z _ _ (counted-IsGrouped _ _ s h))
      ]

  evaluate_input-IsGrouped :
      (config : Track3Config F) (input : Track3MarketInput F) (s : Track3State F)
      → IsGrouped s
      → IsGrouped (evaluate_input reals config input s).1
  unfolding evaluate_input
  evaluate_input-IsGrouped config input s h =
      let s' = cool_down reals (roll_over reals input s) in
      let h' = cool_down-IsGrouped (roll_over reals input s) (roll_over-IsGrouped input s h) in
      let z = (calculate_z_score reals input.spread_history).0 in
      let regime = detect_market_regime reals input in
      elim (Bool-cases (calculate_z_score reals input.spread_history).1) [
        | inr invalid ↦ rw invalid h'
        | inl valid ↦ elim (Bool-cases (is_none s'.active_position)) [
          | inl flat ↦ rw (valid, flat) (evaluate_flat-IsGrouped config regime z input s' h')
          | inr held ↦ rw (valid, held) (evaluate_held-IsGrouped config regime z input s' h')
        ]
      ]

-- One call of the strategy; `initialize` only resets.
pub data Step {F : Type 0} (reals : Reals F) (config : Track3Config F)
    : Track3State F → Track3State F → Type 0 where
  resets : (s : Track3State F) → Step reals config s (reset_state reals)
  evaluates :
      (input : Track3MarketInput F) (s : Track3State F)
      → Step reals config s (evaluate_input reals config input s).1

pub data Reach {F : Type 0} (reals : Reals F) (config : Track3Config F)
    : Track3State F → Type 0 where
  new : Reach reals config (reset_state reals)
  next : {s t : Track3State F} → Reach reals config s → Step reals config s t → Reach reals config t

reset-IsGrouped : {F : Type 0} (reals : Reals F) → IsGrouped (reset_state reals)
reset-IsGrouped reals = inl (record { no_position = refl; no_group = refl; no_legs = refl })

-- In every state that calls lead to, the strategy is flat, without group and legs, or holds a
-- position with its group of two legs, the first on the position's side.
pub Reach-IsGrouped :
    {F : Type 0} (reals : Reals F) (config : Track3Config F) {s : Track3State F}
    → Reach reals config s
    → IsGrouped s
Reach-IsGrouped reals config new = reset-IsGrouped reals
Reach-IsGrouped reals config (next before (resets s)) = reset-IsGrouped reals
Reach-IsGrouped reals config (next before (evaluates input s)) =
    evaluate_input-IsGrouped reals config input s (Reach-IsGrouped reals config before)
