-- ===== src/Live/Gate.antt =====
-- environments/live/contracts.py and environments/live/safety_gate.py: `LiveSafetyPolicy` and
-- `LiveSafetyGate`. The floats are only compared, so they stand as their exact decimal values.
use kospi200_project.Base.{
  String, ◌≡◌, refl, Bool, true, false, not, ◌&&◌, ◌||◌, Option, none, some, is_none, arith, ◌⊎◌,
  inl, inr, Bool-cases, Option-cases, if◌then◌else◌,
}
use kospi200_project.Base.Int.{ℤ, pos, ◌<ℤ◌, ◌≤ℤ◌, ltb_ℤ, leb_ℤ}
use kospi200_project.Base.Text.{truthy, strip}
use kospi200_project.Base.Decimal.{Decimal, ltd, is_positive}
use kospi200_project.Base.Exn.{ok, raise, Method, value_error}

pub data LiveApprovalState : Type 0 where
  disarmed approved revoked : LiveApprovalState

pub record LiveSafetyPolicy : Type 0 where
  pub approval_state : LiveApprovalState
  pub kill_switch : Bool
  pub max_order_quantity : ℤ
  pub max_daily_loss : Decimal
  pub max_position_quantity : ℤ
  pub max_account_staleness_seconds : Decimal

unfoldable pub can_submit : LiveSafetyPolicy → Bool
can_submit p =
    not p.kill_switch
    && ltb_ℤ (pos 0) p.max_order_quantity
    && is_positive p.max_daily_loss
    && ltb_ℤ (pos 0) p.max_position_quantity

pub record LiveApproval : Type 0 where
  pub approved_by : String
  pub approved_at : String
  pub reason : String

pub record LiveGateResult : Type 0 where
  pub allowed : Bool
  pub reason : String

pub record LiveSafetyGate : Type 0 where
  pub policy : LiveSafetyPolicy
  pub approval : Option LiveApproval

-- `LiveSafetyGate(policy)`
abbrev pub new_gate : LiveSafetyPolicy → LiveSafetyGate
new_gate policy = record { policy = policy; approval = none }

unfoldable pub approve : LiveApproval → Method LiveSafetyGate (Unit {0})
approve approval gate =
    if not (truthy (strip approval.approved_by))
    then (raise value_error "approval identity is required", gate)
    else (ok tt, record gate { approval = some approval })

unfoldable pub revoke : LiveSafetyGate → LiveSafetyGate
revoke gate = record gate { approval = none }

abbrev refused : String → LiveGateResult
refused reason = record { allowed = false; reason = reason }

unfoldable pub evaluate : ℤ → Decimal → LiveSafetyGate → LiveGateResult
evaluate quantity account_age_seconds gate =
    if is_none gate.approval
    then refused "live approval is missing"
    else if not (can_submit gate.policy)
    then refused "live safety policy is disarmed"
    else if leb_ℤ quantity (pos 0) || ltb_ℤ gate.policy.max_order_quantity quantity
    then refused "order quantity exceeds live limit"
    else if ltd gate.policy.max_account_staleness_seconds account_age_seconds
    then refused "account/position data is stale"
    else record { allowed = true; reason = "approved" }

-- One call that changes the gate.
pub data Step : LiveSafetyGate → LiveSafetyGate → Type 0 where
  approving : (a : LiveApproval) (gate : LiveSafetyGate) → Step gate (approve a gate).1
  revoking : (gate : LiveSafetyGate) → Step gate (revoke gate)

pub data Reach (policy : LiveSafetyPolicy) : LiveSafetyGate → Type 0 where
  start : Reach policy (new_gate policy)
  next : {m n : LiveSafetyGate} → Reach policy m → Step m n → Reach policy n

-- The policy never changes, and an approval names its approver.
record Inv (policy : LiveSafetyPolicy) (gate : LiveSafetyGate) : Type 0 where
  own : gate.policy ≡ policy
  named : (a : LiveApproval) → gate.approval ≡ some a → truthy (strip a.approved_by) ≡ true

Step-Inv :
    {m n : LiveSafetyGate} (policy : LiveSafetyPolicy) → Step m n → Inv policy m → Inv policy n
unfolding approve revoke
Step-Inv policy (approving a gate) inv = record {
  own = ground (arith, inv.own);
  named = λ b e. ground (arith, inv.named b);
}
Step-Inv policy (revoking gate) inv = record { own = inv.own; named = λ b e. ground arith }

Reach-Inv :
    (policy : LiveSafetyPolicy) {gate : LiveSafetyGate} → Reach policy gate → Inv policy gate
Reach-Inv policy start = record { own = refl; named = λ a e. ground arith }
Reach-Inv policy (next r st) = Step-Inv policy st (Reach-Inv policy r)

-- What an order needs: an approval by somebody, an armed policy, and a quantity and an age of the
-- data within the policy's limits.
abbrev pub MayPass : LiveSafetyPolicy → ℤ → Decimal → LiveSafetyGate → Type 0
MayPass policy quantity age gate =
    ((a : LiveApproval) × (gate.approval ≡ some a) × (truthy (strip a.approved_by) ≡ true))
    × (policy.kill_switch ≡ false)
    × (is_positive policy.max_daily_loss ≡ true)
    × (pos 0 <ℤ policy.max_position_quantity)
    × (pos 0 <ℤ quantity)
    × (quantity ≤ℤ policy.max_order_quantity)
    × (ltd policy.max_account_staleness_seconds age ≡ false)

-- In every state that calls lead to from a new gate, an order is allowed exactly if it may pass under
-- the policy that the gate was made with, and a revoked gate allows none.
pub evaluate_reached :
    {gate : LiveSafetyGate} (policy : LiveSafetyPolicy) (quantity : ℤ) (age : Decimal)
    → Reach policy gate
    → (((evaluate quantity age gate).allowed ≡ true) × MayPass policy quantity age gate
        ⊎ ((evaluate quantity age gate).allowed ≡ false) × ¬ MayPass policy quantity age gate)
      × ((evaluate quantity age (revoke gate)).allowed ≡ false)
unfolding evaluate can_submit revoke
evaluate_reached {gate} policy quantity age r =
    let inv = Reach-Inv policy r in
    (
      elim (Bool-cases (evaluate quantity age gate).allowed) [
        | inr denied ↦ inr (denied, λ m. ground (arith, inv.own))
        | inl good ↦ elim (Option-cases gate.approval) [
          | inl missing ↦ ground arith
          | inr (a, e) ↦ inl (
            good,
            (
              (a, e, inv.named a e),
              ground (arith, inv.own),
              ground (arith, inv.own),
              ground (arith, inv.own),
              ground (arith, inv.own),
              ground (arith, inv.own),
              ground (arith, inv.own),
            ),
          )
        ]
      ],
      ground arith,
    )
