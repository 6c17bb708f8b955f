-- ===== src/Risk/Engine/Approval.antt =====
-- What an approval of core/risk/risk_engine.py guarantees.
use kospi200_project.Base.{
  ℕ, ◌≡◌, refl, ap, sym, subst, ◌∙◌, Bool, true, false, Option, none, some, arith, Option-cases,
  ⊎-cases, if◌then◌else◌, inl, inr, ◌≢◌,
}
use kospi200_project.Base.Int.{ℤ, pos, pos_part, neg_part, ◌<ℤ◌, ◌≤ℤ◌, ◌+ℤ◌, abs, ltb_ℤ}
use kospi200_project.Position.Net.{is_side, signed}
use kospi200_project.Base.Decimal.{Decimal, ltd, led}
use kospi200_project.Risk.Sensor.{RiskSensorSnapshot}
use kospi200_project.Risk.Input.{RiskAccountInput, Positions, RiskOrderCommand}
use kospi200_project.Risk.Engine.{
  RiskEngine, allow, reduce, RiskEvaluationResult, with_qty, current_position, current_qty,
  limit_position, limit_margin, entry_denial, final_denial, total_loss, margin_ratio,
  evaluate_margin, evaluate_order, approved,
}
use kospi200_project.Risk.Engine.Exposure.{
  Reduced, limit_position-Reduced, limit_margin-Reduced, limit_margin_whole, limit_position_fits,
  after, after_mono, after-abs, own_position, signed_position, HeldWithin, HasOwnPlace, current-own,
  held_bounds,
}

entry_passed :
    (e : RiskEngine) (command : RiskOrderCommand) (account : RiskAccountInput)
    → entry_denial e command account ≡ none
    → (e.is_kill_switch_active ≡ false)
      × (pos 0 <ℤ command.qty)
      × (command.qty ≤ℤ e.config.max_order_qty)
      × (led e.config.max_daily_loss_krw (total_loss e account) ≡ false)
unfolding entry_denial
entry_passed e c a h = ground arith

module _ (margin : RiskOrderCommand → Decimal) (e : RiskEngine) (command : RiskOrderCommand)
    (account : RiskAccountInput) (positions : Option Positions) (sensor : Option RiskSensorSnapshot)
    (allow_reduction : Bool) (order_id now : ℕ) where
  abbrev result : RiskEvaluationResult
  result = evaluate_order margin e command account positions sensor allow_reduction order_id now

  -- The stages that an approved order went through, with the command after each.
  pub record Passed : Type 0 where
    pub limited : RiskOrderCommand
    pub final : RiskOrderCommand
    pub entry : entry_denial e command account ≡ none
    pub position : limit_position e command positions allow_reduction ≡ inr limited
    pub funds : limit_margin margin limited account allow_reduction ≡ inr final
    pub checks : final_denial margin e final account sensor ≡ none
    pub outcome : result ≡ approved margin order_id now command.qty final account

  evaluate_margin_passed :
      (limited : RiskOrderCommand)
      → entry_denial e command account ≡ none
      → limit_position e command positions allow_reduction ≡ inr limited
      → result.is_approved ≡ true
      → Passed
  unfolding evaluate_order evaluate_margin
  evaluate_margin_passed limited h1 h2 h =
      elim (⊎-cases (limit_margin margin limited account allow_reduction)) [
        | inl (reason, e3) ↦ ground arith
        | inr (final, e3) ↦ elim (Option-cases (final_denial margin e final account sensor)) [
          | inr (reason, e4) ↦ ground arith
          | inl e4 ↦ record {
            limited = limited;
            final = final;
            entry = h1;
            position = h2;
            funds = e3;
            checks = e4;
            outcome = ground arith;
          }
        ]
      ]

  passed : result.is_approved ≡ true → Passed
  unfolding evaluate_order
  passed h = elim (Option-cases (entry_denial e command account)) [
    | inr (reason, e1) ↦ ground arith
    | inl e1 ↦ elim (⊎-cases (limit_position e command positions allow_reduction)) [
      | inl (reason, e2) ↦ ground arith
      | inr (limited, e2) ↦ evaluate_margin_passed limited e1 e2 h
    ]
  ]

  final-Reduced : (p : Passed) → Reduced command p.final
  final-Reduced p =
      let (_, some_qty, _, _) = entry_passed e command account p.entry in
      let lim =
        limit_position-Reduced e command p.limited positions allow_reduction some_qty p.position in
      let fin =
        limit_margin-Reduced margin p.limited p.final account allow_reduction lim.some_qty
          p.funds in
      record {
        shape = fin.shape ∙ ap (λ (c : RiskOrderCommand). with_qty c p.final.qty) lim.shape;
        some_qty = fin.some_qty;
        no_more = omega (arith, fin.no_more, lim.no_more);
      }

  ratio_passed :
      (final : RiskOrderCommand)
      → final_denial margin e final account sensor ≡ none
      → ltd e.config.max_margin_utilization_ratio (margin_ratio account (margin final)) ≡ false
  unfolding final_denial
  ratio_passed final h = ground arith

  -- An approval never happens under the kill switch, for a quantity out of range, or at the daily
  -- loss limit. The approved quantity is positive and at most the ordered one; the decision is
  -- REDUCE exactly when it is lower, and then the reduced command is the order with that quantity.
  -- The approval carries a token, and the margin ratio that it reports is within the limit.
  pub approval_lem :
      result.is_approved ≡ true
      → (e.is_kill_switch_active ≡ false)
        × (command.qty ≤ℤ e.config.max_order_qty)
        × (led e.config.max_daily_loss_krw (total_loss e account) ≡ false)
        × (pos 0 <ℤ result.approved_qty)
        × (result.approved_qty ≤ℤ command.qty)
        × (result.decision ≡ (if ltb_ℤ result.approved_qty command.qty then reduce else allow))
        × (result.reduced_command ≡ (
            if ltb_ℤ result.approved_qty command.qty
            then some (with_qty command result.approved_qty)
            else none))
        × (result.token ≢ none)
        × (ltd e.config.max_margin_utilization_ratio result.estimated_margin_ratio ≡ false)
  approval_lem h =
      let p = passed h in
      let (off, _, size, loss) = entry_passed e command account p.entry in
      let r = final-Reduced p in
      rw p.outcome (
        off,
        size,
        loss,
        r.some_qty,
        r.no_more,
        refl,
        rw (← r.shape) refl,
        (λ absent. cc absent),
        ratio_passed p.final p.checks,
      )

  approval_expected :
      pos 0 ≤ℤ current_qty (current_position command.instrument_key positions)
      → current_qty (current_position command.instrument_key positions)
        ≤ℤ e.config.max_position_per_instrument
      → (p : Passed)
      → after command (current_position command.instrument_key positions) p.final.qty
        ≤ℤ e.config.max_position_per_instrument
  approval_expected low high p =
      let (_, some_qty, _, _) = entry_passed e command account p.entry in
      let current = current_position command.instrument_key positions in
      let lim =
        limit_position-Reduced e command p.limited positions allow_reduction some_qty p.position in
      let fin =
        limit_margin-Reduced margin p.limited p.final account allow_reduction lim.some_qty
          p.funds in
      after_mono command current p.final.qty p.limited.qty e.config.max_position_per_instrument low
        high fin.some_qty fin.no_more
        (limit_position_fits e command p.limited positions allow_reduction low high some_qty
          p.position)

  -- An approved buy or sell keeps the position on its instrument within the limit: if the signed
  -- quantity held of it (a sold one counts negative) is within the limit on either side, the sum with
  -- the signed approved quantity is. The instrument must be among the positions given, or these must
  -- not be exactly one of another instrument, which the engine would read in its place.
  pub approval_fits :
      is_side command.side ≡ true
      → HasOwnPlace command.instrument_key positions
      → HeldWithin e.config.max_position_per_instrument
          (own_position command.instrument_key positions)
      → result.is_approved ≡ true
      → pos (
          abs (
            signed_position (own_position command.instrument_key positions)
            +ℤ signed command.side result.approved_qty))
        ≤ℤ e.config.max_position_per_instrument
  approval_fits side place held h =
      let p = passed h in
      let limit = e.config.max_position_per_instrument in
      let own = own_position command.instrument_key positions in
      let same = current-own command.instrument_key positions place in
      let (low, high) = held_bounds limit own held in
      let fits = rw same at (approval_expected (rw same low) (rw same high) p) in
      subst
        (λ (r : RiskEvaluationResult).
          pos (abs (signed_position own +ℤ signed command.side r.approved_qty)) ≤ℤ limit)
        (sym p.outcome)
        (subst (λ n. n ≤ℤ limit)
          (sym (after-abs limit command own p.final.qty held side (final-Reduced p).some_qty)) fits)

  -- An order that is approved without a reduction is covered: its margin, which the result
  -- reports, is at most the free margin.
  pub approval_covered :
      result.is_approved ≡ true
      → result.approved_qty ≡ command.qty
      → (result.required_margin ≡ margin command)
        × (ltd account.free_margin result.required_margin ≡ false)
  approval_covered h same =
      let p = passed h in
      let (_, some_qty, _, _) = entry_passed e command account p.entry in
      let lim =
        limit_position-Reduced e command p.limited positions allow_reduction some_qty p.position in
      let q : p.final.qty ≡ command.qty = rw p.outcome at same in
      elim (limit_margin_whole margin p.limited p.final account allow_reduction p.funds) [
        | inr (_, lower) ↦
            absurd (
              omega
                (arith, lim.no_more, ap (λ (z : ℤ). pos_part z) q, ap (λ (z : ℤ). neg_part z) q))
        | inl (whole, covered) ↦
            let shape = (final-Reduced p).shape ∙ ap (λ (n : ℤ). with_qty command n) q in
            rw p.outcome (ap margin shape, covered)
      ]
