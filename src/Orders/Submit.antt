-- ===== src/Orders/Submit.antt =====
-- core/oms/multi_leg_submission.py: `submit_multi_leg_intents`. The mapper and the token supplier are
-- callbacks of the caller. In this revision the line that routes a leg is a comment, so the router,
-- a function on the world `W`, is never called. Absent and empty leg ids are both refused with the
-- message for repeated ones, so they need not be told apart before.
use kospi200_project.Base.{
  String, ◌≡◌, refl, Bool, true, false, not, ◌&&◌, ◌||◌, Option, none, some, is_none, List, [], ◌∷◌,
  map, arith, inl, inr, Option-cases, if◌then◌else◌,
}
use kospi200_project.Base.Text.{◌==◌, eq_iff, truthy?, or_empty}
use kospi200_project.Base.Lists.{All, any, all_distinct}
use kospi200_project.Base.Exn.{Result, ok, err, raise, Result-cases, multi_leg_submission_error}
use kospi200_project.Contracts.{BrokerOrderCommand, OrderIntent}

abbrev reject {ℓ} : {A : Type ℓ} → String → Result A
reject m = raise multi_leg_submission_error m

-- `a == b` for optional texts.
unfoldable pub same_text : Option String → Option String → Bool
same_text none none = true
same_text (some a) (some b) = a == b
same_text _ _ = false

same_text_lem : (a b : Option String) → same_text a b ≡ true → a ≡ b
unfolding same_text
same_text_lem none none h = refl
same_text_lem (some a) (some b) h = ground (arith, eq_iff a b)
same_text_lem none (some b) h = ground arith
same_text_lem (some a) none h = ground arith

-- `len({intent.group_id for intent in intents}) == 1`, for a group that the first one has.
unfoldable pub one_group : Option String → List OrderIntent → Bool
one_group g [] = true
one_group g (i ∷ is) = same_text i.group_id g && one_group g is

abbrev pub leg_texts : List OrderIntent → List String
leg_texts intents = map (λ i. or_empty i.leg_id) intents

-- The checks on the whole order; `false` is a router without `register_and_route`.
unfoldable pub group_checks : List OrderIntent → Bool → Result (Unit {0})
group_checks [] router = reject "MULTI_LEG_INTENTS_REQUIRED"
group_checks (i ∷ is) router =
    if not router
    then reject "ORDER_ROUTER_REQUIRED"
    else if not (truthy? i.group_id)
    then reject "GROUP_ID_REQUIRED"
    else if not (one_group i.group_id (i ∷ is))
    then reject "GROUP_ID_MISMATCH"
    else if not (all_distinct (leg_texts (i ∷ is))) || any (λ j. not (truthy? j.leg_id)) (i ∷ is)
    then reject "UNIQUE_LEG_ID_REQUIRED"
    else ok tt

in_one_group :
    (g : Option String) (is : List OrderIntent)
    → one_group g is ≡ true
    → All (λ i. i.group_id ≡ g) is
unfolding one_group
in_one_group g [] h = tt
in_one_group g (i ∷ is) h =
    (same_text_lem i.group_id g (ground arith), in_one_group g is (ground arith))

module _ {T : Type 0} (to_broker_command : OrderIntent → Result (Option BrokerOrderCommand))
    (approval_token_for : OrderIntent → BrokerOrderCommand → Result (Option T)) where
  -- The body of the loop, once the mapper has answered.
  unfoldable pub check_command : OrderIntent → Option BrokerOrderCommand → Result (Unit {0})
  check_command intent none = reject "BROKER_COMMAND_REQUIRED"
  check_command intent (some command) =
      if not (same_text command.group_id intent.group_id)
        || not (same_text command.leg_id intent.leg_id)
      then reject "GROUP_LEG_PROVENANCE_MISMATCH"
      else elim (approval_token_for intent command) [
        | err e ↦ err e
        | ok none ↦ reject "RISK_APPROVAL_TOKEN_REQUIRED"
        | ok (some token) ↦ ok tt
      ]

  unfoldable pub check_leg : OrderIntent → Result (Unit {0})
  check_leg intent = elim (to_broker_command intent) [
    | err e ↦ err e
    | ok command ↦ check_command intent command
  ]

  unfoldable pub check_legs : List OrderIntent → Result (Unit {0})
  check_legs [] = ok tt
  check_legs (i ∷ is) =
      let rest = check_legs is in elim (check_leg i) [ err e ↦ err e | ok _ ↦ rest ]

  -- The responses, and the world: no leg is routed, so there are no responses.
  unfoldable pub submit_multi_leg_intents :
      {R W : Type 0}
      → List OrderIntent
      → Option (BrokerOrderCommand → T → W → Result R × W)
      → W
      → Result (List R) × W
  submit_multi_leg_intents intents router w = elim (group_checks intents (not (is_none router))) [
    | err e ↦ (err e, w)
    | ok _ ↦ elim (check_legs intents) [ err e ↦ (err e, w) | ok _ ↦ (ok [], w) ]
  ]

  -- A leg has a command of its group and leg, and a token for that command.
  abbrev pub Ready : OrderIntent → Type 0
  Ready i =
      (c : BrokerOrderCommand) × (t : T) × (to_broker_command i ≡ ok (some c))
      × (approval_token_for i c ≡ ok (some t))
      × (c.group_id ≡ i.group_id)
      × (c.leg_id ≡ i.leg_id)

  check_command-Ready :
      (i : OrderIntent) (c : BrokerOrderCommand)
      → check_command i (some c) ≡ ok tt
      → (t : T) × (approval_token_for i c ≡ ok (some t))
        × (c.group_id ≡ i.group_id)
        × (c.leg_id ≡ i.leg_id)
  unfolding check_command
  check_command-Ready i c h = elim (Result-cases (approval_token_for i c)) [
    | inr (x, e) ↦ ground arith
    | inl (token, e) ↦ elim (Option-cases token) [
      | inl missing ↦ ground arith
      | inr (t, e') ↦ (
        t,
        ground arith,
        same_text_lem c.group_id i.group_id (ground arith),
        same_text_lem c.leg_id i.leg_id (ground arith),
      )
    ]
  ]

  check_leg-Ready : (i : OrderIntent) → check_leg i ≡ ok tt → Ready i
  unfolding check_leg check_command
  check_leg-Ready i h = elim (Result-cases (to_broker_command i)) [
    | inr (x, e) ↦ ground arith
    | inl (command, e) ↦ elim (Option-cases command) [
      | inl missing ↦ ground arith
      | inr (c, e') ↦
          let (t, token, group, leg) = check_command-Ready i c (ground arith) in
          (c, t, ground arith, token, group, leg)
    ]
  ]

  check_legs-Ready : (is : List OrderIntent) → check_legs is ≡ ok tt → All Ready is
  unfolding check_legs
  check_legs-Ready [] h = tt
  check_legs-Ready (i ∷ is) h = elim (Result-cases (check_leg i)) [
    | inr (x, e) ↦ ground arith
    | inl (u, e) ↦ (check_leg-Ready i (ground arith), check_legs-Ready is (ground arith))
  ]

  -- A submission that returns has checked every leg: all legs are of the first leg's group, their
  -- leg ids differ, and each has a matching command and a token. Yet it returns no response and
  -- leaves the world as it was, for any router: no leg is sent.
  pub submit_checks_only :
      {R W : Type 0} (first : OrderIntent) (more : List OrderIntent)
      (router : Option (BrokerOrderCommand → T → W → Result R × W)) (w : W) (responses : List R)
      → (submit_multi_leg_intents (first ∷ more) router w).0 ≡ ok responses
      → All (λ i. i.group_id ≡ first.group_id) (first ∷ more)
        × (all_distinct (leg_texts (first ∷ more)) ≡ true)
        × All Ready (first ∷ more)
        × (responses ≡ [])
        × ((submit_multi_leg_intents (first ∷ more) router w).1 ≡ w)
  unfolding submit_multi_leg_intents group_checks
  submit_checks_only first more router w responses h =
      elim (Result-cases (check_legs (first ∷ more))) [
        | inr (x, e) ↦ ground arith
        | inl (u, e) ↦ (
          in_one_group first.group_id (first ∷ more) (ground arith),
          ground arith,
          check_legs-Ready (first ∷ more) (ground arith),
          ground arith,
          ground arith,
        )
      ]
