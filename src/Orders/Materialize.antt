-- ===== src/Orders/Materialize.antt =====
-- core/oms/multi_leg_materializer.py: `materialize_multi_leg_plan`, which turns the legs of a plan
-- into order intents. The resolver of identities and the function for client order ids are callbacks
-- of the caller: the resolver returns `none` or an identity, or raises.
use kospi200_project.Base.{
  String, ◌≡◌, true, false, not, Option, none, some, List, [], ◌∷◌, arith, inl, inr, Option-cases,
  if◌then◌else◌, ap, ◌∙◌,
}
use kospi200_project.Base.Text.{◌==◌, truthy, append}
use kospi200_project.Base.Exn.{
  Result, ok, err, raise, Result-cases, multi_leg_materialization_error,
}
use kospi200_project.Contracts.{
  OptionInstrumentIdentity, ExecutionLeg, MultiLegExecutionPlan, OrderIntent,
}
use kospi200_project.Orders.Resolver.{type_overridden, strike_overridden}

pub record MultiLegExecutionSemantics : Type 0 where
  pub order_type : String
  pub order_purpose : String
  pub asset_type : String

abbrev pub IdentityResolver : Type 0
IdentityResolver = ExecutionLeg → Result (Option OptionInstrumentIdentity)

-- The default of `client_order_id_for`.
abbrev pub default_client_order_id : MultiLegExecutionPlan → ExecutionLeg → String
default_client_order_id plan leg = append plan.group_id (append ":" leg.leg_id)

abbrev reject {ℓ} : {A : Type ℓ} → String → Result A
reject m = raise multi_leg_materialization_error m

module _ (resolve_identity : IdentityResolver) (semantics : MultiLegExecutionSemantics)
    (make_client_id : MultiLegExecutionPlan → ExecutionLeg → String)
    (plan : MultiLegExecutionPlan) where
  abbrev intent_of : ExecutionLeg → OptionInstrumentIdentity → OrderIntent
  intent_of leg identity = record {
    client_order_id = make_client_id plan leg;
    instrument_id = identity.instrument_id;
    side = leg.side;
    quantity = leg.quantity;
    intent_type = semantics.order_purpose;
    strategy_id = some plan.strategy_id;
    risk_context = none;
    instrument_identity = some identity;
    asset_type = some semantics.asset_type;
    requested_price = leg.requested_price;
    order_type = some semantics.order_type;
    order_purpose = some semantics.order_purpose;
    track_id = some plan.strategy_id;
    tag_id = none;
    group_id = some plan.group_id;
    leg_id = some leg.leg_id;
  }

  -- The body of the loop, once the resolver has answered. A leg's option type and strike must be
  -- those of the identity, where the leg has them.
  unfoldable pub materialize_leg :
      ExecutionLeg → Option OptionInstrumentIdentity → Result OrderIntent
  materialize_leg leg none = reject "AUTHORITATIVE_IDENTITY_REQUIRED"
  materialize_leg leg (some identity) =
      if not (truthy identity.instrument_id)
      then reject "AUTHORITATIVE_IDENTITY_REQUIRED"
      else if type_overridden leg.option_type identity.option_type
      then reject "OPTION_TYPE_IDENTITY_MISMATCH"
      else if strike_overridden leg.strike identity.strike
      then reject "STRIKE_IDENTITY_MISMATCH"
      else if not (truthy (make_client_id plan leg))
      then reject "CLIENT_ORDER_ID_REQUIRED"
      else ok (intent_of leg identity)

  unfoldable pub resolved_leg : ExecutionLeg → Result OrderIntent
  resolved_leg leg = elim (resolve_identity leg) [
    | err e ↦ err e
    | ok found ↦ materialize_leg leg found
  ]

  unfoldable pub materialize_legs : List ExecutionLeg → Result (List OrderIntent)
  materialize_legs [] = ok []
  materialize_legs (leg ∷ legs) =
      let rest = materialize_legs legs in
      elim (resolved_leg leg) [
        | err e ↦ err e
        | ok intent ↦ elim rest [ err e ↦ err e | ok intents ↦ ok (intent ∷ intents) ]
      ]

  unfoldable pub materialize_multi_leg_plan : Result (List OrderIntent)
  materialize_multi_leg_plan =
      if not (truthy semantics.order_type)
      then reject "ORDER_TYPE_REQUIRED"
      else if not (truthy semantics.order_purpose)
      then reject "ORDER_PURPOSE_REQUIRED"
      else if not (semantics.asset_type == "OPTION")
      then reject "OPTION_ASSET_TYPE_REQUIRED"
      else materialize_legs plan.legs

  -- What an intent keeps of its plan and its leg.
  pub record Carries (leg : ExecutionLeg) (intent : OrderIntent) : Type 0 where
    pub leg_kept : intent.leg_id ≡ some leg.leg_id
    pub group_kept : intent.group_id ≡ some plan.group_id
    pub side_kept : intent.side ≡ leg.side
    pub quantity_kept : intent.quantity ≡ leg.quantity
    pub client_id : intent.client_order_id ≡ make_client_id plan leg
    pub client_given : truthy intent.client_order_id ≡ true
    pub instrument_given : truthy intent.instrument_id ≡ true
    pub resolved :
        (identity : OptionInstrumentIdentity) × (resolve_identity leg ≡ ok (some identity))
        × (intent.instrument_identity ≡ some identity)
        × (intent.instrument_id ≡ identity.instrument_id)
        × (type_overridden leg.option_type identity.option_type ≡ false)
        × (strike_overridden leg.strike identity.strike ≡ false)

  -- Each leg with the intent at its place.
  abbrev pub AllCarry : List ExecutionLeg → List OrderIntent → Type 0
  AllCarry [] [] = Unit
  AllCarry (leg ∷ legs) (intent ∷ intents) = Carries leg intent × AllCarry legs intents
  AllCarry _ _ = ⊥

  resolved_leg-Carries :
      (leg : ExecutionLeg) (intent : OrderIntent)
      → resolved_leg leg ≡ ok intent
      → Carries leg intent
  unfolding resolved_leg materialize_leg
  resolved_leg-Carries leg intent h = elim (Result-cases (resolve_identity leg)) [
    | inr (x, e) ↦ ground arith
    | inl (found, e) ↦ elim (Option-cases found) [
      | inl missing ↦ ground arith
      | inr (i, given) ↦ record {
        leg_kept = ground arith;
        group_kept = ground arith;
        side_kept = ground arith;
        quantity_kept = ground arith;
        client_id = ground arith;
        client_given = ground arith;
        instrument_given = ground arith;
        resolved = (i, e ∙ ap ok given, ground arith, ground arith, ground arith, ground arith);
      }
    ]
  ]

  materialize_legs-AllCarry :
      (legs : List ExecutionLeg) (intents : List OrderIntent)
      → materialize_legs legs ≡ ok intents
      → AllCarry legs intents
  unfolding materialize_legs
  materialize_legs-AllCarry [] [] h = tt
  materialize_legs-AllCarry [] (i ∷ is) h = cc
  materialize_legs-AllCarry (leg ∷ legs) intents h = elim (Result-cases (resolved_leg leg)) [
    | inr (x, e) ↦ ground arith
    | inl (i, e) ↦ elim (Result-cases (materialize_legs legs)) [
      | inr (x, e') ↦ ground arith
      | inl (is, e') ↦
          let same : i ∷ is ≡ intents = ground arith in
          rw (← same) (resolved_leg-Carries leg i e, materialize_legs-AllCarry legs is e')
    ]
  ]

  -- The intents of a plan stand in the order of its legs, one for each leg. Every intent has the
  -- leg's id, side and quantity, the plan's group, a client order id and an instrument id that are
  -- not empty, and the identity that the resolver gave, which agrees with the leg.
  pub materialize-AllCarry :
      (intents : List OrderIntent)
      → materialize_multi_leg_plan ≡ ok intents
      → AllCarry plan.legs intents
  unfolding materialize_multi_leg_plan
  materialize-AllCarry intents h = materialize_legs-AllCarry plan.legs intents (ground arith)
