-- ===== src/Risk/MultiLeg.antt =====
-- core/risk/multi_leg_risk.py: every leg of an order passes the standard gate on its own. The
-- command factory is a callback of the caller, and `fresh n` gives the id and the time of the
-- token for the n-th leg.
pub mod Complete
use kospi200_project.Base.{
  ℕ, suc, String, Bool, true, false, not, ◌&&◌, ◌||◌, Option, none, some, is_none, List, [], ◌∷◌,
  ◌⊎◌, inl, inr, if◌then◌else◌, eqb,
}
use kospi200_project.Base.Int.{ℤ, pos, leb_ℤ, eqb_ℤ}
use kospi200_project.Base.Text.{◌==◌, truthy}
use kospi200_project.Base.Lists.{length, all}
use kospi200_project.Base.Dict.{Dict, insert}
use kospi200_project.Base.Decimal.{Decimal}
use kospi200_project.Contracts.{OrderIntent, RiskApprovalToken}
use kospi200_project.Risk.Input.{RiskAccountInput, Positions, RiskOrderCommand}
use kospi200_project.Risk.Sensor.{RiskSensorSnapshot}
use kospi200_project.Risk.Engine.{
  RiskGate, RiskEvaluationResult, RejectionReason, RiskDecision, deny, allow, reduce, admit_order,
}

-- `MultiLegRiskError`: one of the code's messages, or the gate's reason.
pub data MultiLegRiskError : Type 0 where
  code : String → MultiLegRiskError
  rejected : RejectionReason → MultiLegRiskError

pub record MultiLegRiskApproval : Type 0 where
  pub group_id : String
  pub approved_quantities : Dict ℤ
  pub tokens : Dict RiskApprovalToken
  pub reduced_commands : Dict RiskOrderCommand

-- `str(a) == str(b)` for two tokens, which prints their three fields.
same_token : RiskApprovalToken → RiskApprovalToken → Bool
same_token a b =
    eqb a.order_id b.order_id && (eqb a.timestamp_ns b.timestamp_ns && a.signature == b.signature)

-- The code's message, or the reason if the gate gave one.
reason_or : Option RejectionReason → MultiLegRiskError
reason_or none = code "ORDER_DENIED_BY_RISK"
reason_or (some r) = rejected r

-- The reduced command agrees with the approved quantity.
reduction_agrees : RiskEvaluationResult → Bool
reduction_agrees result = elim result.reduced_command [
  | none ↦ false
  | some c ↦ eqb_ℤ c.qty result.approved_qty
]

abbrev with_reduction : String → RiskEvaluationResult → MultiLegRiskApproval → MultiLegRiskApproval
with_reduction id result acc = elim result.reduced_command [
  | none ↦ acc
  | some c ↦ record acc { reduced_commands = insert id c acc.reduced_commands }
]

abbrev with_leg :
    String → RiskEvaluationResult → RiskApprovalToken → MultiLegRiskApproval → MultiLegRiskApproval
with_leg id result token acc = record acc {
  approved_quantities = insert id result.approved_qty acc.approved_quantities;
  tokens = insert id token acc.tokens;
}

-- The checks on one evaluated leg, and the approval with the leg added.
unfoldable pub book_leg :
    String
    → RiskEvaluationResult
    → RiskApprovalToken
    → MultiLegRiskApproval
    → MultiLegRiskError ⊎ MultiLegRiskApproval
unfolding same_token reduction_agrees
book_leg id result token acc =
    if leb_ℤ result.approved_qty (pos 0)
    then inl (code "APPROVED_QUANTITY_REQUIRED")
    else elim result.token [
      | none ↦ inl (code "RISK_TOKEN_PROVENANCE_MISMATCH")
      | some own ↦
          if not (same_token own token)
          then inl (code "RISK_TOKEN_PROVENANCE_MISMATCH")
          else elim result.decision [
            | reduce ↦
                if reduction_agrees result
                then inr (with_reduction id result (with_leg id result token acc))
                else inl (code "REDUCED_QUANTITY_PROVENANCE_MISMATCH")
            | _ ↦ inr (with_leg id result token acc)
          ]
    ]

-- `len({intent.group_id ...}) == 1 and None not in group_ids`
unfoldable pub single_group : List OrderIntent → Option String
single_group [] = none
single_group (i ∷ rest) = elim i.group_id [
  | none ↦ none
  | some g ↦
      if all (λ j. elim j.group_id [ none ↦ false | some h ↦ g == h ]) rest then some g else none
]

abbrev pub empty_approval : String → MultiLegRiskApproval
empty_approval g = record {
  group_id = g;
  approved_quantities = [];
  tokens = [];
  reduced_commands = [];
}

-- `len(tokens) != len(intents)`
unfoldable pub all_tokens :
    List OrderIntent
    → MultiLegRiskError ⊎ MultiLegRiskApproval
    → MultiLegRiskError ⊎ MultiLegRiskApproval
all_tokens intents (inl e) = inl e
all_tokens intents (inr acc) =
    if eqb (length acc.tokens) (length intents)
    then inr acc
    else inl (code "ALL_LEG_RISK_TOKENS_REQUIRED")

module _ (margin : RiskOrderCommand → Decimal) (command_factory : OrderIntent → RiskOrderCommand)
    (account : RiskAccountInput) (positions : Option Positions) (sensor : Option RiskSensorSnapshot)
    (allow_reduction : Bool) (fresh : ℕ → ℕ × ℕ) where
  -- One round of the loop, after the gate has answered.
  unfoldable pub admitted_leg :
      OrderIntent
      → (Bool × Option RiskApprovalToken × Option RejectionReason) × RiskGate
      → MultiLegRiskApproval
      → MultiLegRiskError ⊎ MultiLegRiskApproval
  unfolding reason_or
  admitted_leg intent ((admitted, token, reason), gate) acc = elim token [
    | none ↦ inl (reason_or reason)
    | some t ↦ elim gate.last_evaluation_result [
      | none ↦ inl (reason_or reason)
      | some result ↦
          if admitted then book_leg intent.client_order_id result t acc else inl (reason_or reason)
    ]
  ]

  -- The checks on an intent and its command, then the gate.
  unfoldable pub admit_leg :
      ℕ
      → OrderIntent
      → MultiLegRiskApproval
      → RiskGate
      → (MultiLegRiskError ⊎ MultiLegRiskApproval) × RiskGate
  unfolding admitted_leg
  admit_leg n intent acc gate =
      let command = command_factory intent in
      let (order_id, now) = fresh n in
      let answer =
        admit_order margin command account positions sensor allow_reduction order_id now gate in
      if not (truthy intent.client_order_id)
      then (inl (code "CLIENT_ORDER_ID_REQUIRED"), gate)
      else if not (command.client_order_id == intent.client_order_id)
      then (inl (code "CLIENT_ORDER_ID_PROVENANCE_MISMATCH"), gate)
      else (admitted_leg intent answer acc, answer.1)

  unfoldable pub admit_legs :
      ℕ
      → List OrderIntent
      → MultiLegRiskApproval
      → RiskGate
      → (MultiLegRiskError ⊎ MultiLegRiskApproval) × RiskGate
  admit_legs n [] acc gate = (inr acc, gate)
  admit_legs n (intent ∷ rest) acc gate =
      let (r, gate') = admit_leg n intent acc gate in
      elim r [ inl e ↦ (inl e, gate') | inr acc' ↦ admit_legs (suc n) rest acc' gate' ]

  unfoldable pub admit_multi_leg_intents :
      List OrderIntent → RiskGate → (MultiLegRiskError ⊎ MultiLegRiskApproval) × RiskGate
  admit_multi_leg_intents [] gate = (inl (code "MULTI_LEG_INTENTS_REQUIRED"), gate)
  admit_multi_leg_intents (i ∷ rest) gate = elim (single_group (i ∷ rest)) [
    | none ↦ (inl (code "SINGLE_GROUP_ID_REQUIRED"), gate)
    | some g ↦
        let (r, gate') = admit_legs 0 (i ∷ rest) (empty_approval g) gate in
        (all_tokens (i ∷ rest) r, gate')
  ]
