-- ===== src/Strategy/Tests.antt =====
-- The theorems on strategies at concrete strategies, evaluations and signals.
use kospi200_project.Base.{
  ℕ, zero, suc, ◌+◌, String, ◌≡◌, refl, true, none, some, List, [], ◌∷◌, map, ◌++◌,
}
use mathlib.Core.List.{Perm}
use kospi200_project.Base.Int.{pos}
use kospi200_project.Base.Text.{strip}
use kospi200_project.Base.Print.{print_ℤ}
use kospi200_project.Base.Dict.{Dict, lookup, insert, contains}
use kospi200_project.Base.Lists.{All}
use kospi200_project.Base.Decimal.{Decimal, of_ℕ, scaled}
use kospi200_project.Base.Exn.{ok, is_ok, raise, value_error}
use kospi200_project.Contracts.{OptionInstrumentIdentity}
use kospi200_project.Decision.Arbiter as Arbiter
use kospi200_project.Decision.Arbiter.Outcome.{Agree}
use kospi200_project.Decision.Arbiter.Balance.{signals_of}
use kospi200_project.Strategy.Registry.{StrategyKey, StrategyContext, Strategies, Keyed, find, put}
use kospi200_project.Strategy.Orchestrator.{
  StrategyOrchestrator, new_orchestrator, all_enabled, run_keys,
}
use kospi200_project.Strategy.Orchestrator.Runs.{contained, Untouched, run_keys-Untouched}
use kospi200_project.Strategy.Orchestrator.Containment.{Contained, run_keys_returns}
use kospi200_project.Strategy.Orchestrator.Initialization.{with_initialize, initialize_once}
use kospi200_project.Strategy.Signals.{
  StrategySignal, RuntimeStrategyEvaluation, RuntimeSignalContext, CanonicalStrategySignal, Floats,
  signal_to_canonical, signal_id, client_order_id,
}
use kospi200_project.Strategy.Commands.{
  RuntimeDecisionResult, view, canonical_signals, identified, contexts_of, commands_of, command_of,
  approved_signal_to_command, decide, CanonicalOrderCommand, build_commands,
}
use kospi200_project.Strategy.Traces.{AllTraced, build_commands-AllTraced}
use kospi200_project.Strategy.Stems.{AllStem, decide-AllStem}

-- A strategy that counts its market states and fails to evaluate from the second one on.
pub record Counter : Type 0 where
  pub name : String
  pub seen : ℕ

abbrev counters : Strategies ℕ ℕ Counter
counters = record {
  key = λ t. (t.name, "1");
  initialize = λ c t. (ok tt, record t { seen = 0 });
  on_market_state = λ c t. (ok tt, record t { seen = t.seen + 1 });
  evaluate = λ c t. elim t.seen [ zero ↦ (ok (7 ∷ []), t) | suc _ ↦ (raise value_error "late", t) ];
  reset = λ t. (ok tt, t);
}

abbrev context_of : String → StrategyContext ℕ
context_of name = record { market_state = 0; strategy_id = name; input = none }

late_contained :
    (n : ℕ) (t : Counter)
    → contained (counters.evaluate (context_of "A") (record t { seen = n })).0 ≡ true
late_contained zero t = refl
late_contained (suc n) t = refl

counters-Contained : Contained counters
counters-Contained = record {
  initialize_contained = λ c t. refl;
  market_contained = λ c t. refl;
  evaluate_contained = λ c t. late_contained t.seen t;
}

abbrev contexts : Dict (StrategyContext ℕ)
contexts = ("A", context_of "A") ∷ ("B", context_of "B") ∷ []

abbrev registry : Keyed Counter
registry =
    (("A", "1"), record { name = "A"; seen = 0 })
    ∷ (("B", "1"), record { name = "B"; seen = 0 })
    ∷ []

abbrev keys : List StrategyKey
keys = ("A", "1") ∷ ("B", "1") ∷ []

abbrev orchestrator : StrategyOrchestrator Counter
unfolding all_enabled put
orchestrator = new_orchestrator registry keys

run_keys-Untouched_example :
    Untouched ("B", "1") orchestrator (run_keys counters contexts (("A", "1") ∷ []) orchestrator).1
run_keys-Untouched_example =
    run_keys-Untouched counters contexts (("A", "1") ∷ []) orchestrator ("B", "1") refl

run_keys_returns_example : is_ok (run_keys counters contexts keys orchestrator).0 ≡ true
unfolding orchestrator all_enabled put find
run_keys_returns_example =
    run_keys_returns counters contexts keys orchestrator counters-Contained (refl, (refl, tt))

abbrev warm : StrategyOrchestrator Counter
unfolding orchestrator
warm = record orchestrator { initialized = keys }

initialize_once_example :
    run_keys (with_initialize (λ c t. (raise value_error "again", t)) counters) contexts keys warm
    ≡ run_keys counters contexts keys warm
unfolding warm
initialize_once_example =
    initialize_once counters (λ c t. (raise value_error "again", t)) contexts keys warm
      (refl, (refl, tt))

abbrev floats : Floats Decimal
floats = record { zero_float = of_ℕ 0; to_float = λ d. d; print_float = λ d. print_ℤ d.coef }

abbrev call_350 : OptionInstrumentIdentity
call_350 = record {
  instrument_id = "201W01350";
  symbol = "201W01350";
  expiry = some "2026-01-08";
  option_type = some "CALL";
  strike = some (of_ℕ 350);
}

abbrev signal : StrategySignal
signal = record {
  strategy_id = "Track1";
  direction = "LONG";
  reason = "tail";
  instrument_identity = some call_350;
  option_type_override = none;
  strike_override = none;
  execution_proposal = some (record {
    proposed_quantity = pos 2;
    asset_type = "OPTION";
    requested_price = none;
    side = some "BUY";
    track_id = none;
    tag_id = none;
    option_type = some "CALL";
    strike = some (of_ℕ 350);
  });
}

abbrev runtime : RuntimeSignalContext Decimal
runtime = record {
  signal_id = "SIG-3-Track1-1";
  track_id = "Track1";
  price = scaled 125 2;
  timestamp = "09:05";
}

abbrev canonical : CanonicalStrategySignal Decimal
canonical = record {
  signal_id = "SIG-3-Track1-1";
  track_id = "Track1";
  asset_type = "OPTION";
  side = "BUY";
  qty = pos 2;
  price = scaled 125 2;
  option_type = some "CALL";
  strike = of_ℕ 350;
  tag_id = "";
  reason = "tail";
  timestamp = "09:05";
  symbol = "201W01350";
  expiry = "2026-01-08";
  instrument_id = "";
}

abbrev evaluation : RuntimeStrategyEvaluation
evaluation = record {
  context_strategy_id = some " Track1 ";
  result = signal;
  local_sequence = pos 1;
  runtime_context = record { tick_sequence = pos 3; local_sequence = pos 1 };
}

abbrev decision : RuntimeDecisionResult Decimal
unfolding view
decision = record {
  canonical_signals = canonical ∷ [];
  arbitration = Arbiter.arbitrate (view floats canonical ∷ []);
}

decide-AllStem_example :
    let approved = decision.arbitration.approved_signals in
    AllStem floats (scaled 125 2) "09:05" (λ _. none) (evaluation ∷ []) decision.canonical_signals
    × Perm
        (approved ++ signals_of decision.arbitration.rejected_signals)
        (map (view floats) decision.canonical_signals)
    × All (λ a. All (Agree a) approved) approved
unfolding decide decision canonical_signals identified strip signal_id signal_to_canonical print_ℤ
decide-AllStem_example =
    decide-AllStem floats (scaled 125 2) "09:05" (λ _. none) (evaluation ∷ []) refl

abbrev command : CanonicalOrderCommand Decimal
command = record {
  client_order_id = "ORD-T3-Track1-1";
  track_id = "Track1";
  asset_type = "OPTION";
  side = "BUY";
  qty = pos 2;
  price = scaled 125 2;
  option_type = some "CALL";
  strike = of_ℕ 350;
  symbol = "201W01350";
  expiry = "2026-01-08";
  tag_id = "";
}

build_commands-AllTraced_example : AllTraced (evaluation ∷ []) (canonical ∷ []) (command ∷ [])
unfolding build_commands identified strip signal_id contains command_of insert print_ℤ
    client_order_id lookup contexts_of commands_of approved_signal_to_command
build_commands-AllTraced_example = build_commands-AllTraced (evaluation ∷ []) (canonical ∷ []) refl
