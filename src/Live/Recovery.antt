-- ===== src/Live/Recovery.antt =====
-- environments/live/idempotency.py, environments/live/reconciliation.py and
-- environments/live/recovery.py. In this revision the line of the reconciler that notes a mismatch is a
-- comment, so its loop over the instruments has no effect; their order then has none either, and the
-- loop runs over the keys of the two maps as they stand.
use kospi200_project.Base.{
  String, ◌≡◌, refl, Bool, true, false, not, none, some, List, [], ◌∷◌, ◌++◌, map, arith,
  if◌then◌else◌,
}
use kospi200_project.Base.Int.{ℤ, pos, eqb_ℤ}
use kospi200_project.Base.Text.{◌==◌, eq_iff, append}
use kospi200_project.Base.Dict.{Dict, lookup, insert, contains, lookup-insert}
use kospi200_project.Base.Lists.{is_empty}

pub record OrderIdentity : Type 0 where
  pub client_order_id : String
  pub strategy_id : String
  pub intent_fingerprint : String

abbrev pub fingerprint_of : OrderIdentity → String
fingerprint_of i = append i.strategy_id (append ":" i.intent_fingerprint)

-- `IdempotencyRegistry.reserve`
unfoldable pub reserve : OrderIdentity → Dict String → Bool × Dict String
reserve identity identities =
    if contains identity.client_order_id identities
    then (false, identities)
    else (true, insert identity.client_order_id (fingerprint_of identity) identities)

-- A client order id is reserved exactly once: the first reservation succeeds and notes the
-- fingerprint, and then every other one with that id fails and leaves the first fingerprint; no other
-- id is touched.
pub reserve_once :
    (first second : OrderIdentity) (identities : Dict String) (k : String)
    → lookup first.client_order_id identities ≡ none
    → second.client_order_id ≡ first.client_order_id
    → let (r, after) = reserve first identities in
      (r ≡ true)
      × (reserve second after ≡ (false, after))
      × (lookup k after ≡ (
          if first.client_order_id == k then some (fingerprint_of first) else lookup k identities))
unfolding reserve contains
reserve_once first second identities k free same = (
  ground arith,
  ground (
    arith,
    lookup-insert first.client_order_id second.client_order_id (fingerprint_of first) identities,
    eq_iff first.client_order_id second.client_order_id,
  ),
  ground (arith, lookup-insert first.client_order_id k (fingerprint_of first) identities),
)

pub record ReconciliationResult : Type 0 where
  pub consistent : Bool
  pub reasons : List String

-- `positions.get(instrument, 0)`
abbrev quantity_of : String → Dict ℤ → ℤ
quantity_of instrument positions = elim (lookup instrument positions) [ none ↦ pos 0 | some q ↦ q ]

-- The loop, with the reasons so far.
unfoldable pub compare_instruments : List String → Dict ℤ → Dict ℤ → List String → List String
compare_instruments [] broker internal reasons = reasons
compare_instruments (i ∷ is) broker internal reasons =
    let rest = compare_instruments is broker internal reasons in
    if not (eqb_ℤ (quantity_of i broker) (quantity_of i internal)) then rest else rest

unfoldable pub compare_positions : Dict ℤ → Dict ℤ → ReconciliationResult
compare_positions broker internal =
    let reasons =
      compare_instruments (map (λ e. e.0) broker ++ map (λ e. e.0) internal) broker internal [] in
    record { consistent = is_empty reasons; reasons = reasons }

pub record RecoveryDecision : Type 0 where
  pub action : String
  pub reason : String

unfoldable pub decide : Bool → Bool → RecoveryDecision
decide reconciliation_consistent broker_connected =
    if not broker_connected
    then record { action = "SAFE_STOP"; reason = "broker disconnected" }
    else if not reconciliation_consistent
    then record { action = "SAFE_STOP"; reason = "broker/internal state mismatch" }
    else record { action = "RESUME_ALLOWED"; reason = "state reconciled" }

no_reasons :
    (is : List String) (broker internal : Dict ℤ) → compare_instruments is broker internal [] ≡ []
unfolding compare_instruments
no_reasons [] broker internal = refl
no_reasons (i ∷ is) broker internal = ground (arith, no_reasons is broker internal)

-- The recovery that follows a reconciliation resumes exactly if the broker is connected, whatever
-- positions the broker and the system hold: a mismatch is never reported.
pub recovery_ignores_positions :
    (broker internal : Dict ℤ) (connected : Bool)
    → let r = compare_positions broker internal in
      (r.reasons ≡ [])
      × (decide r.consistent connected ≡ (
          if connected
          then record { action = "RESUME_ALLOWED"; reason = "state reconciled" }
          else record { action = "SAFE_STOP"; reason = "broker disconnected" }))
unfolding compare_positions decide
recovery_ignores_positions broker internal connected =
    let keys = map (λ e. e.0) broker ++ map (λ e. e.0) internal in
    (no_reasons keys broker internal, ground (arith, no_reasons keys broker internal))
