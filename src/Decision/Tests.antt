-- ===== src/Decision/Tests.antt =====
-- Runs of the arbiter of core/decision/decision_arbiter.py.
use kospi200_project.Base.{String, ◌≡◌, ◌≤◌, ◌≢◌, some, List, [], ◌∷◌, ◌++◌}
use kospi200_project.Base.Int.{pos}
use kospi200_project.Base.Lists.{All, length}
use mathlib.Core.List.{Perm}
use kospi200_project.Decision.Arbiter.{Signal, arbitrate, instrument_key}
use kospi200_project.Decision.Arbiter.Sorting.{priority}
use kospi200_project.Decision.Arbiter.Outcome.{Agree, In, arbitrate_no_clash, arbitrate_rejected}
use kospi200_project.Decision.Arbiter.Balance.{signals_of, arbitrate-perm}

abbrev signal : String → String → String → Signal
signal id track side = record {
  signal_id = id;
  track_id = track;
  asset_type = "OPTION";
  strike = "350";
  option_type = some "CALL";
  side = side;
  qty = pos 1;
}

-- The later signal of the more important track wins.
abbrev clashing : List Signal
clashing = signal "s1" "Track5" "BUY" ∷ signal "s2" "Track1" "SELL" ∷ []

arbitrate_no_clash_example :
    let approved = (arbitrate clashing).approved_signals in
    All (λ a. All (Agree a) approved) approved
arbitrate_no_clash_example = arbitrate_no_clash clashing

arbitrate_rejected_example :
    let r = arbitrate clashing in
    All
      (λ (s, _).
        (c : Signal) × In c r.approved_signals
        × (instrument_key c ≡ instrument_key s)
        × (c.side ≢ s.side)
        × (priority c ≤ priority s))
      r.rejected_signals
arbitrate_rejected_example = arbitrate_rejected clashing

arbitrate-perm_example :
    let r = arbitrate clashing in
    Perm (r.approved_signals ++ signals_of r.rejected_signals) clashing
    × (length r.netted_clashes ≡ length r.rejected_signals)
arbitrate-perm_example = arbitrate-perm clashing
