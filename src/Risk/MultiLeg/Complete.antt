-- ===== src/Risk/MultiLeg/Complete.antt =====
-- An approval of core/risk/multi_leg_risk.py covers every leg.
use kospi200_project.Base.{
  ℕ, suc, String, ◌≡◌, Bool, true, false, Option, none, some, List, [], ◌∷◌, ◌⊎◌, inl, inr, arith,
  Bool-cases, Option-cases, ⊎-cases, ◌∙◌, ap, subst, ◌&&◌,
}
use kospi200_project.Base.Int.{ℤ, pos, ◌<ℤ◌}
use kospi200_project.Base.Text.{◌==◌, eq_iff, truthy}
use kospi200_project.Base.Lists.{length, All, all}
use kospi200_project.Base.Dict.{lookup, insert, lookup-insert}
use kospi200_project.Base.Decimal.{Decimal}
use kospi200_project.Contracts.{OrderIntent, RiskApprovalToken}
use kospi200_project.Risk.Input.{RiskAccountInput, Positions, RiskOrderCommand}
use kospi200_project.Risk.Sensor.{RiskSensorSnapshot}
use kospi200_project.Risk.Engine.{RiskGate, RiskEvaluationResult, RejectionReason, admit_order}
use kospi200_project.Risk.MultiLeg.{
  MultiLegRiskError, MultiLegRiskApproval, book_leg, admitted_leg, admit_leg, admit_legs,
  all_tokens, admit_multi_leg_intents, empty_approval, single_group,
}

-- The approval holds a token and a positive quantity for the id.
abbrev pub Covers : MultiLegRiskApproval → String → Type 0
Covers a id =
    (q : ℤ) × (lookup id a.approved_quantities ≡ some q)
    × (pos 0 <ℤ q)
    × ((t : RiskApprovalToken) × (lookup id a.tokens ≡ some t))

-- What one leg adds: its own cover, none lost, and the group kept.
pub record Adds (id : String) (acc next : MultiLegRiskApproval) : Type 0 where
  pub qty : ℤ
  pub token : RiskApprovalToken
  pub positive : pos 0 <ℤ qty
  pub quantities : next.approved_quantities ≡ insert id qty acc.approved_quantities
  pub tokens : next.tokens ≡ insert id token acc.tokens
  pub group : next.group_id ≡ acc.group_id

book_leg-Adds :
    (id : String) (result : RiskEvaluationResult) (token : RiskApprovalToken)
    (acc next : MultiLegRiskApproval)
    → book_leg id result token acc ≡ inr next
    → Adds id acc next
unfolding book_leg
book_leg-Adds id result token acc next h = record {
  qty = result.approved_qty;
  token = token;
  positive = ground arith;
  quantities = ground arith;
  tokens = ground arith;
  group = ground arith;
}

Adds-Covers_self :
    (id : String) (acc next : MultiLegRiskApproval) → Adds id acc next → Covers next id
Adds-Covers_self id acc next a = (
  a.qty,
  ground (arith, lookup-insert id id a.qty acc.approved_quantities, eq_iff id id),
  a.positive,
  (a.token, ground (arith, lookup-insert id id a.token acc.tokens, eq_iff id id)),
)

Adds-Covers :
    (id k : String) (acc next : MultiLegRiskApproval)
    → Adds id acc next
    → Covers acc k
    → Covers next k
Adds-Covers id k acc next a (q, eq, positive, (t, et)) = elim (Bool-cases (id == k)) [
  | inl same ↦ (
    a.qty,
    ground (arith, lookup-insert id k a.qty acc.approved_quantities),
    a.positive,
    (a.token, ground (arith, lookup-insert id k a.token acc.tokens)),
  )
  | inr other ↦ (
    q,
    ground (arith, lookup-insert id k a.qty acc.approved_quantities),
    positive,
    (t, ground (arith, lookup-insert id k a.token acc.tokens)),
  )
]

all_in_group :
    (g : String) (l : List OrderIntent)
    → all (λ j. elim j.group_id [ none ↦ false | some h ↦ g == h ]) l ≡ true
    → All (λ i. i.group_id ≡ some g) l
all_in_group g [] h = tt
all_in_group g (j ∷ l) h = elim (Option-cases j.group_id) [
  | inl missing ↦ ground arith
  | inr (k, e) ↦ (ground (arith, eq_iff g k), all_in_group g l (ground arith))
]

-- One group for all intents.
single_group-All :
    (l : List OrderIntent) (g : String) → single_group l ≡ some g → All (λ i. i.group_id ≡ some g) l
unfolding single_group
single_group-All [] g h = tt
single_group-All (i ∷ l) g h = elim (Option-cases i.group_id) [
  | inl missing ↦ ground arith
  | inr (k, e) ↦
      let same : k ≡ g = ground arith in (e ∙ ap some same, all_in_group g l (ground arith))
]

module _ (margin : RiskOrderCommand → Decimal) (command_factory : OrderIntent → RiskOrderCommand)
    (account : RiskAccountInput) (positions : Option Positions) (sensor : Option RiskSensorSnapshot)
    (allow_reduction : Bool) (fresh : ℕ → ℕ × ℕ) where
  abbrev legs :
      ℕ
      → List OrderIntent
      → MultiLegRiskApproval
      → RiskGate
      → (MultiLegRiskError ⊎ MultiLegRiskApproval) × RiskGate
  legs = admit_legs margin command_factory account positions sensor allow_reduction fresh

  abbrev leg :
      ℕ
      → OrderIntent
      → MultiLegRiskApproval
      → RiskGate
      → (MultiLegRiskError ⊎ MultiLegRiskApproval) × RiskGate
  leg = admit_leg margin command_factory account positions sensor allow_reduction fresh

  admitted_leg-Adds :
      (i : OrderIntent) (admitted : Bool) (token : Option RiskApprovalToken)
      (reason : Option RejectionReason) (gate : RiskGate) (acc next : MultiLegRiskApproval)
      → admitted_leg margin command_factory account positions sensor allow_reduction fresh i
          ((admitted, token, reason), gate)
          acc
        ≡ inr next
      → Adds i.client_order_id acc next
  unfolding admitted_leg
  admitted_leg-Adds i admitted none reason gate acc next h = cc
  admitted_leg-Adds i admitted (some t) reason gate acc next h =
      elim (Option-cases gate.last_evaluation_result) [
        | inl missing ↦ ground arith
        | inr (result, found) ↦ elim (Bool-cases admitted) [
          | inr refused ↦ ground arith
          | inl good ↦ book_leg-Adds i.client_order_id result t acc next (ground arith)
        ]
      ]

  admit_leg-Adds :
      (n : ℕ) (i : OrderIntent) (acc next : MultiLegRiskApproval) (gate : RiskGate)
      → (leg n i acc gate).0 ≡ inr next
      → Adds i.client_order_id acc next
  unfolding admit_leg
  admit_leg-Adds n i acc next gate h =
      let command = command_factory i in
      let ((admitted, token, reason), gate') =
        admit_order margin command account positions sensor allow_reduction (fresh n).0 (fresh n).1
          gate in
      elim (Bool-cases (truthy i.client_order_id && command.client_order_id == i.client_order_id)) [
        | inl good ↦ admitted_leg-Adds i admitted token reason gate' acc next (ground arith)
        | inr bad ↦ ground arith
      ]

  -- Covers are kept to the end of the loop.
  admit_legs-keeps :
      (n : ℕ) (intents : List OrderIntent) (acc final : MultiLegRiskApproval) (gate : RiskGate)
      (k : String)
      → (legs n intents acc gate).0 ≡ inr final
      → Covers acc k
      → Covers final k
  unfolding admit_legs
  admit_legs-keeps n [] acc final gate k h c =
      let same : acc ≡ final = ground arith in subst (λ a. Covers a k) same c
  admit_legs-keeps n (i ∷ rest) acc final gate k h c = elim (⊎-cases (leg n i acc gate).0) [
    | inl (e, stop) ↦ ground arith
    | inr (next, go) ↦
        admit_legs-keeps (suc n) rest next final (leg n i acc gate).1 k (ground arith)
          (Adds-Covers i.client_order_id k acc next (admit_leg-Adds n i acc next gate go) c)
  ]

  admit_legs-Covers :
      (n : ℕ) (intents : List OrderIntent) (acc final : MultiLegRiskApproval) (gate : RiskGate)
      → (legs n intents acc gate).0 ≡ inr final
      → (final.group_id ≡ acc.group_id) × All (λ i. Covers final i.client_order_id) intents
  unfolding admit_legs
  admit_legs-Covers n [] acc final gate h = (ground arith, tt)
  admit_legs-Covers n (i ∷ rest) acc final gate h = elim (⊎-cases (leg n i acc gate).0) [
    | inl (e, stop) ↦ ground arith
    | inr (next, go) ↦
        let added = admit_leg-Adds n i acc next gate go in
        let gate' = (leg n i acc gate).1 in
        let h' : (legs (suc n) rest next gate').0 ≡ inr final = ground arith in
        let (group, covers) = admit_legs-Covers (suc n) rest next final gate' h' in
        (
          group ∙ added.group,
          (
            admit_legs-keeps (suc n) rest next final gate' i.client_order_id h'
                (Adds-Covers_self i.client_order_id acc next added),
            covers,
          ),
        )
  ]

  -- When an order with several legs is admitted, all of its legs have the group of the approval,
  -- every leg has an approval token and a positive approved quantity under its client order id,
  -- and there are as many tokens as legs.
  pub admit_multi_leg-Covers :
      (intents : List OrderIntent) (gate : RiskGate) (approval : MultiLegRiskApproval)
      → (admit_multi_leg_intents margin command_factory account positions sensor allow_reduction
          fresh intents gate).0
        ≡ inr approval
      → All (λ i. i.group_id ≡ some approval.group_id) intents
        × All (λ i. Covers approval i.client_order_id) intents
        × (length approval.tokens ≡ length intents)
  unfolding admit_multi_leg_intents all_tokens
  admit_multi_leg-Covers [] gate approval h = cc
  admit_multi_leg-Covers (i ∷ rest) gate approval h =
      elim (Option-cases (single_group (i ∷ rest))) [
        | inl mixed ↦ ground arith
        | inr (g, one) ↦ elim (⊎-cases (legs 0 (i ∷ rest) (empty_approval g) gate).0) [
          | inl (e, stop) ↦ ground arith
          | inr (final, done) ↦
              let (group, covers) =
                admit_legs-Covers 0 (i ∷ rest) (empty_approval g) final gate done in
              let same : final ≡ approval = ground arith in
              (
                single_group-All (i ∷ rest) approval.group_id (ground (arith, group)),
                subst (λ a. All (λ j. Covers a j.client_order_id) (i ∷ rest)) same covers,
                ground arith,
              )
        ]
      ]
