-- ===== src/Risk/Engine/Denial.antt =====
-- What a refusal of core/risk/risk_engine.py carries, the kill switch, and the gate.
use kospi200_project.Base.{
  ℕ, ◌≡◌, Bool, true, false, Option, none, some, arith, Option-cases, ⊎-cases, ◌⊎◌, inl, inr, ◌≢◌,
}
use kospi200_project.Base.Int.{ℤ, pos}
use kospi200_project.Base.Decimal.{Decimal}
use kospi200_project.Risk.Sensor.{RiskSensorSnapshot}
use kospi200_project.Risk.Input.{RiskAccountInput, Positions, RiskOrderCommand}
use kospi200_project.Risk.Engine.{
  RiskEngine, RiskGate, deny, RiskEvaluationResult, kill_switch, limit_position, limit_margin,
  entry_denial, final_denial, evaluate_margin, evaluate_order, trigger_kill_switch,
  reset_kill_switch, record_realized_loss, admit_order,
}

-- A result is an approval with a token and no reason, or a refusal with a reason and nothing that
-- could be sent.
abbrev pub IsDecided : RiskEvaluationResult → Type 0
IsDecided r =
    ((r.is_approved ≡ true) × (r.decision ≢ deny) × (r.token ≢ none) × (r.rejection_reason ≡ none))
    ⊎ ((r.is_approved ≡ false)
        × (r.decision ≡ deny)
        × (r.approved_qty ≡ pos 0)
        × (r.token ≡ none)
        × (r.reduced_command ≡ none)
        × (r.rejection_reason ≢ none))

module _ (margin : RiskOrderCommand → Decimal) (command : RiskOrderCommand)
    (account : RiskAccountInput) (positions : Option Positions) (sensor : Option RiskSensorSnapshot)
    (allow_reduction : Bool) (order_id now : ℕ) where
  evaluate_margin-IsDecided :
      (e : RiskEngine) (original : ℤ) (limited : RiskOrderCommand)
      → IsDecided
          (evaluate_margin margin e original limited account sensor allow_reduction order_id now)
  unfolding evaluate_margin
  evaluate_margin-IsDecided e original limited =
      elim (⊎-cases (limit_margin margin limited account allow_reduction)) [
        | inl (reason, e3) ↦ inr (ground arith)
        | inr (final, e3) ↦ elim (Option-cases (final_denial margin e final account sensor)) [
          | inr (reason, e4) ↦ inr (ground arith)
          | inl e4 ↦ inl (ground arith)
        ]
      ]

  -- Every evaluation ends in an approval with a token and no reason, or in a refusal with a reason,
  -- a quantity of zero, no token and no command.
  pub evaluate_order-IsDecided :
      (e : RiskEngine)
      → IsDecided
          (evaluate_order margin e command account positions sensor allow_reduction order_id now)
  unfolding evaluate_order
  evaluate_order-IsDecided e = elim (Option-cases (entry_denial e command account)) [
    | inr (reason, e1) ↦ inr (ground arith)
    | inl e1 ↦ elim (⊎-cases (limit_position e command positions allow_reduction)) [
      | inl (reason, e2) ↦ inr (ground arith)
      | inr (limited, e2) ↦
          rw (e1, e2, evaluate_order) (evaluate_margin-IsDecided e command.qty limited)
    ]
  ]

  -- Once the kill switch is triggered every order is refused for that reason, also after more
  -- realized losses were recorded, until the switch is reset.
  pub kill_switch_refuses :
      (e : RiskEngine) (loss : Decimal)
      → let r =
          evaluate_order margin
            (record_realized_loss loss (trigger_kill_switch e))
            command
            account
            positions
            sensor
            allow_reduction
            order_id
            now in
        (r.is_approved ≡ false)
        × (r.rejection_reason ≡ some kill_switch)
        × ((reset_kill_switch (trigger_kill_switch e)).is_kill_switch_active ≡ false)
  unfolding evaluate_order entry_denial record_realized_loss trigger_kill_switch reset_kill_switch
  kill_switch_refuses e loss = ground arith

  -- The gate hands out a token exactly for an approved evaluation, and then it is the token of that
  -- evaluation; otherwise it hands out the reason. It keeps the evaluation and leaves the engine.
  pub admit_order_lem :
      (gate : RiskGate)
      → let r =
          evaluate_order margin gate.engine command account positions sensor allow_reduction
            order_id now in
        let ((admitted, token, reason), gate') =
          admit_order margin command account positions sensor allow_reduction order_id now gate in
        (admitted ≡ r.is_approved)
        × (token ≡ r.token)
        × (reason ≡ r.rejection_reason)
        × (gate'.last_evaluation_result ≡ some r)
        × (gate'.engine ≡ gate.engine)
  unfolding admit_order
  admit_order_lem gate =
      let decided = evaluate_order-IsDecided gate.engine in
      elim decided [
        | inl (yes_approved, _, some_token, no_reason) ↦ ground arith
        | inr (refused, _, _, no_token, _, _) ↦ ground arith
      ]
