-- ===== src/Strategy/Commands.antt =====
-- `RuntimeStrategyToDecisionAdapter.arbitrate` and `RuntimeDecisionCommandAdapter.build_commands` of
-- core/strategy/orchestrator.py, and `approved_signal_to_command` of
-- core/runtime/reference_execution_pipeline.py. The arbiter works on what it reads of a signal.
use kospi200_project.Base.{
  String, not, ◌&&◌, Option, none, some, is_none, List, [], ◌∷◌, map, if◌then◌else◌,
}
use kospi200_project.Base.Int.{ℤ, pos, leb_ℤ}
use kospi200_project.Base.Text.{◌==◌, strip, truthy, or_empty}
use kospi200_project.Base.Dict.{Dict, lookup, insert, contains}
use kospi200_project.Base.Lists.{elem}
use kospi200_project.Base.Exn.{Result, ok, raise, bind, value_error}
use kospi200_project.Contracts.{OptionInstrumentIdentity}
use kospi200_project.Decision.Arbiter as Arbiter
use kospi200_project.Strategy.Signals.{
  RuntimeStrategyEvaluation, CanonicalStrategySignal, Floats, signal_id, client_order_id,
  signal_to_canonical,
}

pub record RuntimeDecisionResult (F : Type 0) : Type 0 where
  pub canonical_signals : List (CanonicalStrategySignal F)
  pub arbitration : Arbiter.ArbitrationResult

-- `str(getattr(evaluation.context, "strategy_id", "") or "").strip()`, which must not be empty.
unfoldable pub track_of : RuntimeStrategyEvaluation → Result String
track_of e =
    if not (truthy (strip (or_empty e.context_strategy_id)))
    then raise value_error "RUNTIME_TRACK_ID_REQUIRED"
    else ok (strip (or_empty e.context_strategy_id))

-- The track and the signal's identity of an evaluation.
unfoldable pub identified : RuntimeStrategyEvaluation → Result (String × String)
unfolding track_of
identified e =
    bind (track_of e) λ track. bind (signal_id e.runtime_context track) λ id. ok (track, id)

module _ {F : Type 0} (floats : Floats F) where
  unfoldable pub view : CanonicalStrategySignal F → Arbiter.Signal
  view c = record {
    signal_id = c.signal_id;
    track_id = c.track_id;
    asset_type = c.asset_type;
    strike = floats.print_float c.strike;
    option_type = c.option_type;
    side = c.side;
    qty = c.qty;
  }

  -- The loop over the evaluations; `provider` gives `none` where no provider was passed.
  unfoldable pub canonical_signals :
      F
      → String
      → (RuntimeStrategyEvaluation → Option OptionInstrumentIdentity)
      → List String
      → List RuntimeStrategyEvaluation
      → Result (List (CanonicalStrategySignal F))
  canonical_signals price timestamp provider seen [] = ok []
  canonical_signals price timestamp provider seen (e ∷ es) = bind (identified e) λ (track, id).
      let rest = canonical_signals price timestamp provider (id ∷ seen) es in
      if elem id seen
      then raise value_error "RUNTIME_DUPLICATE_SIGNAL_ID"
      else bind
          (signal_to_canonical floats e.result
            (record { signal_id = id; track_id = track; price = price; timestamp = timestamp })
            (provider e))
          (λ c. bind rest (λ cs. ok (c ∷ cs)))

  unfoldable pub decide :
      F
      → String
      → (RuntimeStrategyEvaluation → Option OptionInstrumentIdentity)
      → List RuntimeStrategyEvaluation
      → Result (RuntimeDecisionResult F)
  decide price timestamp provider evaluations =
      bind (canonical_signals price timestamp provider [] evaluations) (λ cs.
        ok (record { canonical_signals = cs; arbitration = Arbiter.arbitrate (map view cs) }))

pub record CanonicalOrderCommand (F : Type 0) : Type 0 where
  pub client_order_id : String
  pub track_id : String
  pub asset_type : String
  pub side : String
  pub qty : ℤ
  pub price : F
  pub option_type : Option String
  pub strike : F
  pub symbol : String
  pub expiry : String
  pub tag_id : String

module _ {F : Type 0} where
  unfoldable pub approved_signal_to_command :
      CanonicalStrategySignal F → String → Result (CanonicalOrderCommand F)
  approved_signal_to_command signal client_order_id =
      if not (truthy (strip client_order_id))
      then raise value_error "CLIENT_ORDER_ID_REQUIRED"
      else if leb_ℤ signal.qty (pos 0)
      then raise value_error "QTY_REQUIRED"
      else if not (truthy (strip signal.track_id))
      then raise value_error "TRACK_ID_REQUIRED"
      else if signal.asset_type == "OPTION" && not (truthy (strip signal.symbol))
      then raise value_error "OPTION_SYMBOL_REQUIRED"
      else if signal.asset_type == "OPTION" && not (truthy (strip signal.expiry))
      then raise value_error "OPTION_EXPIRY_REQUIRED"
      else if signal.asset_type == "OPTION" && is_none signal.option_type
      then raise value_error "OPTION_TYPE_REQUIRED"
      else ok (record {
        client_order_id = strip client_order_id;
        track_id = signal.track_id;
        asset_type = signal.asset_type;
        side = signal.side;
        qty = signal.qty;
        price = signal.price;
        option_type = signal.option_type;
        strike = signal.strike;
        symbol = signal.symbol;
        expiry = signal.expiry;
        tag_id = signal.tag_id;
      })

  -- The body of the second loop.
  unfoldable pub command_of :
      Dict RuntimeStrategyEvaluation → CanonicalStrategySignal F → Result (CanonicalOrderCommand F)
  command_of contexts signal = elim (lookup signal.signal_id contexts) [
    | none ↦ raise value_error "RUNTIME_APPROVED_SIGNAL_CONTEXT_REQUIRED"
    | some e ↦
        let track = strip (or_empty e.context_strategy_id) in
        if not (track == signal.track_id)
        then raise value_error "RUNTIME_TRACK_ID_CONTEXT_MISMATCH"
        else bind (client_order_id e.runtime_context track) (approved_signal_to_command signal)
  ]

  unfoldable pub commands_of :
      Dict RuntimeStrategyEvaluation
      → List (CanonicalStrategySignal F)
      → Result (List (CanonicalOrderCommand F))
  commands_of contexts [] = ok []
  commands_of contexts (s ∷ ss) =
      bind (command_of contexts s) λ c. bind (commands_of contexts ss) λ cs. ok (c ∷ cs)

-- The first loop of `build_commands`.
unfoldable pub contexts_of :
    Dict RuntimeStrategyEvaluation
    → List RuntimeStrategyEvaluation
    → Result (Dict RuntimeStrategyEvaluation)
contexts_of d [] = ok d
contexts_of d (e ∷ es) = bind (identified e) λ (track, id).
    let rest = contexts_of (insert id e d) es in
    if contains id d then raise value_error "RUNTIME_DUPLICATE_SIGNAL_ID" else rest

unfoldable pub build_commands :
    {F : Type 0}
    → List RuntimeStrategyEvaluation
    → List (CanonicalStrategySignal F)
    → Result (List (CanonicalOrderCommand F))
unfolding contexts_of commands_of
build_commands evaluations approved =
    bind (contexts_of [] evaluations) (λ contexts. commands_of contexts approved)
