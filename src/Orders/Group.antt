-- ===== src/Orders/Group.antt =====
-- core/oms/position_group.py: `PositionGroupRegistry`, and core/oms/track3_legging.py:
-- `Track3LeggingCoordinator`.
use kospi200_project.Base.{
  String, ◌≡◌, refl, Bool, true, false, not, ◌&&◌, Option, none, some, List, [], ◌∷◌, arith, ◌⊎◌,
  inl, inr, Bool-cases, if◌then◌else◌, ◌≢◌,
}
use kospi200_project.Base.Int.{ℤ, pos, ◌<ℤ◌, ltb_ℤ}
use kospi200_project.Base.Text.{◌==◌, eq_iff, append}
use kospi200_project.Base.Dict.{Dict, lookup, insert, contains, lookup-insert}
use kospi200_project.Base.Lists.{All, all, is_empty}
use kospi200_project.Base.Exn.{Result, ok, is_ok, raise, Method, value_error, key_error}
use kospi200_project.Contracts.{OrderIntent}

pub data LegStatus : Type 0 where
  pending filled rejected cancelled : LegStatus

pub record PositionGroupLeg : Type 0 where
  pub leg_id : String
  pub group_id : String
  pub instrument_id : String
  pub side : String
  pub quantity : ℤ
  pub status : LegStatus

pub record PositionGroup : Type 0 where
  pub group_id : String
  pub strategy_id : String
  pub direction : String
  pub legs : List PositionGroupLeg

abbrev is_filled : LegStatus → Bool
is_filled filled = true
is_filled _ = false

unfoldable pub is_complete : PositionGroup → Bool
is_complete g = not (is_empty g.legs) && all (λ leg. is_filled leg.status) g.legs

unfoldable pub is_integral : PositionGroup → Bool
is_integral g =
    not (is_empty g.legs)
    && all (λ leg. leg.group_id == g.group_id && ltb_ℤ (pos 0) leg.quantity) g.legs

-- `PositionGroupRegistry._groups`
abbrev pub Registry : Type 0
Registry = Dict PositionGroup

unfoldable pub register : PositionGroup → Method Registry (Unit {0})
register g groups =
    if contains g.group_id groups
    then (raise value_error (append "duplicate position group: " g.group_id), groups)
    else if not (is_integral g)
    then (raise value_error (append "invalid position group: " g.group_id), groups)
    else (ok tt, insert g.group_id g groups)

unfoldable pub get_group : String → Registry → Result PositionGroup
get_group group_id groups = elim (lookup group_id groups) [
  | none ↦ raise key_error group_id
  | some g ↦ ok g
]

unfoldable pub replace : PositionGroup → Method Registry (Unit {0})
replace g groups =
    if not (contains g.group_id groups)
    then (raise key_error g.group_id, groups)
    else if not (is_integral g)
    then (raise value_error (append "invalid position group: " g.group_id), groups)
    else (ok tt, insert g.group_id g groups)

-- One call that changes the registry.
pub data Step : Registry → Registry → Type 0 where
  registered : (g : PositionGroup) (groups : Registry) → Step groups (register g groups).1
  replaced : (g : PositionGroup) (groups : Registry) → Step groups (replace g groups).1

pub data Reach : Registry → Type 0 where
  start : Reach []
  next : {m n : Registry} → Reach m → Step m n → Reach n

all_legs :
    (g : String) (legs : List PositionGroupLeg)
    → all (λ leg. leg.group_id == g && ltb_ℤ (pos 0) leg.quantity) legs ≡ true
    → All (λ leg. (leg.group_id ≡ g) × (pos 0 <ℤ leg.quantity)) legs
all_legs g [] h = tt
all_legs g (leg ∷ legs) h = (ground (arith, eq_iff leg.group_id g), all_legs g legs (ground arith))

-- A group stands under its own id and has legs, all of them its own and of a positive quantity.
abbrev pub IsIntegral : String → PositionGroup → Type 0
IsIntegral k g =
    (g.group_id ≡ k)
    × (is_empty g.legs ≡ false)
    × All (λ leg. (leg.group_id ≡ k) × (pos 0 <ℤ leg.quantity)) g.legs

is_integral-IsIntegral : (g : PositionGroup) → is_integral g ≡ true → IsIntegral g.group_id g
unfolding is_integral
is_integral-IsIntegral g h = (refl, ground arith, all_legs g.group_id g.legs (ground arith))

insert-IsIntegral :
    (new g : PositionGroup) (k : String) (groups : Registry)
    → is_integral new ≡ true
    → ((h : PositionGroup) → lookup k groups ≡ some h → IsIntegral k h)
    → lookup k (insert new.group_id new groups) ≡ some g
    → IsIntegral k g
insert-IsIntegral new g k groups good old found = elim (Bool-cases (new.group_id == k)) [
  | inl own ↦
      let same : new ≡ g = ground (arith, lookup-insert new.group_id k new groups) in
      let key : new.group_id ≡ k = (eq_iff new.group_id k).0 own in
      rw (← same, ← key) (is_integral-IsIntegral new good)
  | inr other ↦ old g (ground (arith, lookup-insert new.group_id k new groups))
]

Step-IsIntegral :
    {m n : Registry} (k : String) (g : PositionGroup)
    → Step m n
    → ((h : PositionGroup) → lookup k m ≡ some h → IsIntegral k h)
    → lookup k n ≡ some g
    → IsIntegral k g
unfolding register replace
Step-IsIntegral k g (registered new groups) old found =
    elim (Bool-cases (not (contains new.group_id groups) && is_integral new)) [
      | inl good ↦ insert-IsIntegral new g k groups (ground arith) old (ground arith)
      | inr bad ↦ old g (ground arith)
    ]
Step-IsIntegral k g (replaced new groups) old found =
    elim (Bool-cases (contains new.group_id groups && is_integral new)) [
      | inl good ↦ insert-IsIntegral new g k groups (ground arith) old (ground arith)
      | inr bad ↦ old g (ground arith)
    ]

-- In every registry that calls lead to, whether they return or raise, a group stands under its own
-- id and has legs, all of them of that group and of a positive quantity.
pub Reach-IsIntegral :
    {groups : Registry} (k : String) (g : PositionGroup)
    → Reach groups
    → lookup k groups ≡ some g
    → IsIntegral k g
unfolding lookup
Reach-IsIntegral k g start found = cc
Reach-IsIntegral k g (next r st) found =
    Step-IsIntegral k g st (λ h e. Reach-IsIntegral k h r e) found

-- `register` and `replace` split the cases of an id between them: of a group that is integral exactly
-- one of them is accepted, by whether the id is known, and then `get` returns the group and every
-- other id what it returned before; a group that is not integral is accepted by neither.
pub register-replace_split :
    (g : PositionGroup) (groups : Registry) (k : String)
    → (is_ok (register g groups).0 ≡ is_integral g && not (contains g.group_id groups))
      × (is_ok (replace g groups).0 ≡ is_integral g && contains g.group_id groups)
      × (get_group k
            (if contains g.group_id groups then (replace g groups).1 else (register g groups).1)
          ≡ (if is_integral g && g.group_id == k then ok g else get_group k groups))
unfolding register replace get_group
register-replace_split g groups k =
    (ground arith, ground arith, ground (arith, lookup-insert g.group_id k g groups))

pub record LeggingPlan : Type 0 where
  pub group_id : String
  pub first_leg : PositionGroupLeg
  pub second_leg : PositionGroupLeg

abbrev leg_intent : String → String → PositionGroupLeg → OrderIntent
leg_intent label group leg = record {
  client_order_id = leg.leg_id;
  instrument_id = leg.instrument_id;
  side = leg.side;
  quantity = leg.quantity;
  intent_type = append label (append ":" (append group (append ":" leg.leg_id)));
  strategy_id = none;
  risk_context = none;
  instrument_identity = none;
  asset_type = none;
  requested_price = none;
  order_type = none;
  order_purpose = none;
  track_id = none;
  tag_id = none;
  group_id = some group;
  leg_id = some leg.leg_id;
}

-- `Track3LeggingCoordinator.start`
unfoldable pub start_legging : LeggingPlan → String → OrderIntent
start_legging plan purpose = leg_intent purpose plan.group_id plan.first_leg

unfoldable pub next_after_fill : LeggingPlan → String → Option OrderIntent
next_after_fill plan filled_leg_id =
    if not (filled_leg_id == plan.first_leg.leg_id)
    then none
    else some (leg_intent "TRACK3_LEG2" plan.group_id plan.second_leg)

-- The second leg goes out exactly after a fill of the order that the coordinator started with, in
-- the same group; if the two legs have different ids, then a fill of the second starts nothing.
pub legging_order :
    (plan : LeggingPlan) (purpose filled_leg : String)
    → plan.first_leg.leg_id ≢ plan.second_leg.leg_id
    → let first = start_legging plan purpose in
      ((filled_leg ≡ first.client_order_id)
        × ((second : OrderIntent) × (next_after_fill plan filled_leg ≡ some second)
            × (second.group_id ≡ first.group_id)
            × (next_after_fill plan second.client_order_id ≡ none)))
      ⊎ ((filled_leg ≢ first.client_order_id) × (next_after_fill plan filled_leg ≡ none))
unfolding start_legging next_after_fill
legging_order plan purpose filled_leg differ =
    elim (Bool-cases (filled_leg == plan.first_leg.leg_id)) [
      | inl own ↦ inl (
        ground (arith, eq_iff filled_leg plan.first_leg.leg_id),
        (
          leg_intent "TRACK3_LEG2" plan.group_id plan.second_leg,
          ground arith,
          refl,
          ground (arith, eq_iff plan.second_leg.leg_id plan.first_leg.leg_id),
        ),
      )
      | inr other ↦ inr (λ e. ground (arith, eq_iff filled_leg plan.first_leg.leg_id), ground arith)
    ]
