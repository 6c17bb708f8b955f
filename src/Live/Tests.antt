-- ===== src/Live/Tests.antt =====
-- Runs of the live gates and of a settlement.
use kospi200_project.Base.{◌≡◌, refl, true, false, none, some, [], ◌∷◌, ◌⊎◌}
use kospi200_project.Base.Int.{pos}
use kospi200_project.Base.Lists.{Among, All}
use kospi200_project.Base.Decimal.{of_ℕ}
use kospi200_project.Contracts.{ExecutionReport}
use kospi200_project.Oms.Fsm.{new_machine, apply_intent}
use kospi200_project.Live.Gate
use kospi200_project.Live.Gate.{
  LiveSafetyPolicy, LiveApproval, LiveSafetyGate, approved, new_gate, approve, revoke, evaluate,
  approving, MayPass, evaluate_reached,
}
use kospi200_project.Live.Dedup.{Seen}
use kospi200_project.Live.Settlement.{
  LiveExecutionPositionBridge, settle, Unbooked, settle-Unbooked,
}
use kospi200_project.Base.{String, List, if◌then◌else◌}
use kospi200_project.Base.Int.{ℤ}
use kospi200_project.Base.Text.{strip}
use kospi200_project.Base.Dict.{Dict, lookup, insert}
use kospi200_project.Live.Recovery.{
  OrderIdentity, compare_positions, decide, recovery_ignores_positions,
}
use kospi200_project.Live.Identity.{
  KrxInstrumentRecord, KisMasterIdentityRecord, ReconciledInstrumentIdentity, index_kis, match_krx,
  reconcile_krx_to_kis, Exact, reconcile-Exact,
}

abbrev policy : LiveSafetyPolicy
policy = record {
  approval_state = approved;
  kill_switch = false;
  max_order_quantity = pos 5;
  max_daily_loss = of_ℕ 100;
  max_position_quantity = pos 10;
  max_account_staleness_seconds = of_ℕ 5;
}

abbrev approval : LiveApproval
approval = record { approved_by = "desk"; approved_at = "2026-01-05"; reason = "opening" }

abbrev open_gate : LiveSafetyGate
open_gate = (approve approval (new_gate policy)).1

evaluate_reached_example :
    (((evaluate (pos 3) (of_ℕ 1) open_gate).allowed ≡ true)
        × MayPass policy (pos 3) (of_ℕ 1) open_gate
      ⊎ ((evaluate (pos 3) (of_ℕ 1) open_gate).allowed ≡ false)
        × ¬ MayPass policy (pos 3) (of_ℕ 1) open_gate)
    × ((evaluate (pos 3) (of_ℕ 1) (revoke open_gate)).allowed ≡ false)
evaluate_reached_example =
    evaluate_reached policy (pos 3) (of_ℕ 1)
      (Gate.next Gate.start (approving approval (new_gate policy)))

abbrev filled : ExecutionReport
filled = record {
  client_order_id = "A";
  broker_order_id = some "B2";
  execution_id = some "E1";
  status = "FILLED";
  filled_quantity = pos 3;
  remaining_quantity = pos 0;
  execution_price = some (of_ℕ 2);
  execution_timestamp = none;
  source_freshness = none;
  rejected_reason = none;
  group_id = none;
  leg_id = none;
}

abbrev seen : Seen
seen = "E0" ∷ []

abbrev bridge : LiveExecutionPositionBridge
bridge = record {
  oms = (apply_intent "A" (pos 3) new_machine).1;
  dedup = seen;
  position = record { instrument_id = "201W01"; side = none; qty = pos 0; avg_price = none };
}

settle-Unbooked_example : Unbooked filled bridge (settle filled bridge)
settle-Unbooked_example = settle-Unbooked filled bridge

abbrev identity : String → OrderIdentity
identity print = record {
  client_order_id = "A";
  strategy_id = "Track1";
  intent_fingerprint = print;
}

abbrev nothing_reserved : Dict String
nothing_reserved = []

-- Three contracts at the broker, none in the system.
abbrev at_broker : Dict ℤ
at_broker = ("201W01", pos 3) ∷ []

recovery_ignores_positions_example :
    let r = compare_positions at_broker [] in
    (r.reasons ≡ [])
    × (decide r.consistent true ≡ (
        if true
        then record { action = "RESUME_ALLOWED"; reason = "state reconciled" }
        else record { action = "SAFE_STOP"; reason = "broker disconnected" }))
recovery_ignores_positions_example = recovery_ignores_positions at_broker [] true

abbrev krx : List KrxInstrumentRecord
krx =
    record { isu_cd = "KR4101W1 "; isu_nm = "F 202601"; product_kind = "FUTURES" }
    ∷ record { isu_cd = "KR4201W1"; isu_nm = "C 350"; product_kind = "OPTION" }
    ∷ []

abbrev kis : List KisMasterIdentityRecord
kis =
    record { shrn_iscd = "A01"; stnd_iscd = some "KR4101W1" }
    ∷ record { shrn_iscd = "A02"; stnd_iscd = none }
    ∷ []

abbrev matched : List ReconciledInstrumentIdentity
matched =
    record {
      product_kind = "FUTURES";
      krx_isu_cd = "KR4101W1";
      kis_shrn_iscd = "A01";
      kis_stnd_iscd = "KR4101W1";
      matched_by = "KIS_STND_ISCD_EXACT";
    }
    ∷ []

reconcile-Exact_example : All (Exact (λ r. Among r krx) (λ q. Among q kis)) matched
unfolding reconcile_krx_to_kis index_kis match_krx lookup insert strip
reconcile-Exact_example = reconcile-Exact krx kis matched refl
