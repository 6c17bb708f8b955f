-- ===== src/Orders/Plan.antt =====
-- core/oms/contracts.py_children/multi_leg_plan.py (and the same code in core/oms/contracts.py):
-- the plans of a pair and of a trap. The default arguments are those of the source.
use kospi200_project.Base.{
  String, ◌≡◌, true, false, none, some, [], ◌∷◌, arith, ◌⊎◌, inl, inr, Bool-cases, List,
}
use kospi200_project.Base.Int.{ℤ, pos, ◌<ℤ◌, leb_ℤ}
use kospi200_project.Base.Text.{truthy}
use kospi200_project.Base.Decimal.{Decimal}
use kospi200_project.Base.Exn.{Result, ok, is_ok}
use kospi200_project.Contracts.{ExecutionLeg, MultiLegExecutionPlan, checked_plan}

abbrev option_leg : String → String → ℤ → String → Decimal → ExecutionLeg
option_leg leg_id side quantity option_type strike = record {
  leg_id = leg_id;
  side = side;
  quantity = quantity;
  option_type = some option_type;
  strike = some strike;
  requested_price = none;
}

abbrev pub plan_of : String → String → String → List ExecutionLeg → MultiLegExecutionPlan
plan_of group_id strategy_id purpose legs = record {
  group_id = group_id;
  strategy_id = strategy_id;
  legs = legs;
  purpose = some purpose;
}

-- The legs of a pair: a put and a call.
abbrev pub pair_legs : Decimal → Decimal → ℤ → ℤ → String → List ExecutionLeg
pair_legs put_strike call_strike put_quantity call_quantity side =
    option_leg "put" side put_quantity "PUT" put_strike
    ∷ option_leg "call" side call_quantity "CALL" call_strike
    ∷ []

unfoldable pub build_pair_plan :
    String → String → String → Decimal → Decimal → ℤ → ℤ → String → Result MultiLegExecutionPlan
build_pair_plan group_id strategy_id purpose put_strike call_strike put_quantity call_quantity
      side =
    checked_plan (
      plan_of group_id strategy_id purpose
        (pair_legs put_strike call_strike put_quantity call_quantity side))

-- The legs of a trap: a short put and call inside a long put and call.
abbrev pub trap_legs : Decimal → Decimal → Decimal → Decimal → ℤ → List ExecutionLeg
trap_legs short_put short_call long_put long_call quantity =
    option_leg "short_put" "SELL" quantity "PUT" short_put
    ∷ option_leg "short_call" "SELL" quantity "CALL" short_call
    ∷ option_leg "long_put" "BUY" quantity "PUT" long_put
    ∷ option_leg "long_call" "BUY" quantity "CALL" long_call
    ∷ []

unfoldable pub build_trap_plan :
    String
    → String
    → String
    → Decimal
    → Decimal
    → Decimal
    → Decimal
    → ℤ
    → Result MultiLegExecutionPlan
build_trap_plan group_id strategy_id purpose short_put short_call long_put long_call quantity =
    checked_plan (
      plan_of group_id strategy_id purpose
        (trap_legs short_put short_call long_put long_call quantity))

-- A pair is built exactly if its group has an id and both quantities are positive, and then it has
-- the two legs as given; a trap likewise, with its one quantity on all four legs.
pub build_plan_cases :
    (group_id strategy_id purpose side : String) (a b c d : Decimal) (m n : ℤ)
    → ((truthy group_id ≡ true)
          × (pos 0 <ℤ m)
          × (pos 0 <ℤ n)
          × (build_pair_plan group_id strategy_id purpose a b m n side
              ≡ ok (plan_of group_id strategy_id purpose (pair_legs a b m n side)))
        ⊎ (¬ ((truthy group_id ≡ true) × (pos 0 <ℤ m) × (pos 0 <ℤ n))
            × (is_ok (build_pair_plan group_id strategy_id purpose a b m n side) ≡ false)))
      × ((truthy group_id ≡ true)
            × (pos 0 <ℤ n)
            × (build_trap_plan group_id strategy_id purpose a b c d n
                ≡ ok (plan_of group_id strategy_id purpose (trap_legs a b c d n)))
          ⊎ (¬ ((truthy group_id ≡ true) × (pos 0 <ℤ n))
              × (is_ok (build_trap_plan group_id strategy_id purpose a b c d n) ≡ false)))
unfolding build_pair_plan build_trap_plan checked_plan
build_plan_cases group_id strategy_id purpose side a b c d m n =
    elim (Bool-cases (truthy group_id)) [
      | inr empty ↦ (inr (λ h. cc (h.0), ground arith), inr (λ h. cc (h.0), ground arith))
      | inl named ↦ (
        elim (Bool-cases (leb_ℤ m (pos 0))) [
          | inl low ↦ inr (λ h. ground arith, ground arith)
          | inr high ↦ elim (Bool-cases (leb_ℤ n (pos 0))) [
            | inl low ↦ inr (λ h. ground arith, ground arith)
            | inr high' ↦ inl (named, ground arith, ground arith, ground arith)
          ]
        ],
        elim (Bool-cases (leb_ℤ n (pos 0))) [
          | inl low ↦ inr (λ h. ground arith, ground arith)
          | inr high ↦ inl (named, ground arith, ground arith)
        ],
      )
    ]
