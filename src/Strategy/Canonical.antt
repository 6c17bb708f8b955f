-- ===== src/Strategy/Canonical.antt =====
-- `signal_to_canonical` of core/strategy/orchestrator.py: the form of a canonical signal.
use kospi200_project.Base.{
  String, ◌≡◌, true, false, Option, none, some, List, [], ◌∷◌, arith, inl, inr, ◌⊎◌, Option-cases,
  Bool-cases,
}
use kospi200_project.Base.Int.{pos, leb_ℤ}
use kospi200_project.Base.Text.{◌==◌, eq_iff, truthy, or_empty}
use kospi200_project.Base.Lists.{elem}
use kospi200_project.Base.Exn.{ok, is_ok, bind-eq-ok, Result-cases}
use kospi200_project.Contracts.{OptionInstrumentIdentity}
use kospi200_project.Strategy.Signals.{
  StrategySignal, CanonicalStrategySignal, RuntimeSignalContext, Floats, OptionPart,
  StrategyExecutionProposal, signal_to_canonical, part_of, option_part, one_of, proposal_checks,
  require_non_empty, canonical_of, given_or,
}

-- A canonical signal with identities, a known asset type and side, and a positive quantity. An option
-- has a symbol, an expiry and a known option type; a future has neither option type nor symbol.
abbrev pub WellFormed : {F : Type 0} → CanonicalStrategySignal F → Type 0
WellFormed c =
    (truthy c.signal_id ≡ true)
    × (truthy c.track_id ≡ true)
    × (leb_ℤ c.qty (pos 0) ≡ false)
    × (elem c.side ("BUY" ∷ "SELL" ∷ []) ≡ true)
    × (((c.asset_type ≡ "FUTURES") × (c.option_type ≡ none) × (c.symbol ≡ ""))
        ⊎ ((c.asset_type ≡ "OPTION")
            × (truthy c.symbol ≡ true)
            × (truthy c.expiry ≡ true)
            × ((t : String) × (c.option_type ≡ some t) × (elem t ("CALL" ∷ "PUT" ∷ []) ≡ true))))

module _ {F : Type 0} (floats : Floats F) where
  pub one_of_ok :
      (values : List String) (t : String) {u : String}
      → one_of values t ≡ ok u
      → (u ≡ t) × (elem u values ≡ true)
  unfolding one_of
  one_of_ok values t h = (ground arith, ground arith)

  option_part_ok :
      (p : StrategyExecutionProposal) (i : OptionInstrumentIdentity) {part : OptionPart F}
      → option_part floats p i ≡ ok part
      → (truthy part.symbol ≡ true)
        × (truthy part.expiry ≡ true)
        × ((t : String) × (part.option_type ≡ some t) × (elem t ("CALL" ∷ "PUT" ∷ []) ≡ true))
  unfolding option_part
  option_part_ok p i {part = part} h = elim (Option-cases i.option_type) [
    | inl e ↦ ground arith
    | inr (o, e) ↦ elim (Option-cases i.strike) [
      | inl e2 ↦ ground arith
      | inr (k, e2) ↦ elim (Result-cases (one_of ("CALL" ∷ "PUT" ∷ []) o)) [
        | inr (x, e3) ↦ ground arith
        | inl (t, e3) ↦
            let (_, kind) = one_of_ok ("CALL" ∷ "PUT" ∷ []) o e3 in
            (ground arith, ground arith, (t, ground arith, kind))
      ]
    ]
  ]

  part_of_ok :
      (asset : String) (p : StrategyExecutionProposal) (i : Option OptionInstrumentIdentity)
      {part : OptionPart F}
      → elem asset ("FUTURES" ∷ "OPTION" ∷ []) ≡ true
      → part_of floats asset p i ≡ ok part
      → ((asset ≡ "FUTURES") × (part.option_type ≡ none) × (part.symbol ≡ ""))
        ⊎ ((asset ≡ "OPTION")
            × (truthy part.symbol ≡ true)
            × (truthy part.expiry ≡ true)
            × ((t : String) × (part.option_type ≡ some t) × (elem t ("CALL" ∷ "PUT" ∷ []) ≡ true)))
  unfolding part_of
  part_of_ok asset p i {part = part} known h = elim (Bool-cases (asset == "OPTION")) [
    | inr other ↦ inl (
      ground (arith, eq_iff "FUTURES" asset, eq_iff "OPTION" asset, eq_iff asset "OPTION"),
      ground arith,
      ground arith,
    )
    | inl option ↦ elim (Option-cases i) [
      | inl e ↦ ground arith
      | inr (given, e) ↦
          let (symbol, expiry, kind) =
            option_part_ok p given {part = part} (ground (arith, h, e, option)) in
          inr (ground (arith, eq_iff asset "OPTION"), symbol, expiry, kind)
    ]
  ]

  proposal_checks_ok :
      (p : StrategyExecutionProposal)
      → is_ok (proposal_checks p) ≡ true
      → leb_ℤ p.proposed_quantity (pos 0) ≡ false
  unfolding proposal_checks
  proposal_checks_ok p h = ground arith

  canonical_of-WellFormed :
      (signal : StrategySignal) (runtime : RuntimeSignalContext F)
      (identity : Option OptionInstrumentIdentity) (p : StrategyExecutionProposal)
      {c : CanonicalStrategySignal F}
      → truthy runtime.signal_id ≡ true
      → truthy runtime.track_id ≡ true
      → canonical_of floats signal runtime identity p ≡ ok c
      → WellFormed c
  unfolding canonical_of
  canonical_of-WellFormed signal runtime identity p id track h =
      let (u, checked, h1) = bind-eq-ok (proposal_checks p) _ h in
      let (asset, own, h2) = bind-eq-ok (one_of ("FUTURES" ∷ "OPTION" ∷ []) p.asset_type) _ h1 in
      let (side, own2, h3) = bind-eq-ok (one_of ("BUY" ∷ "SELL" ∷ []) (or_empty p.side)) _ h2 in
      let (part, own3, h4) = bind-eq-ok (part_of floats asset p identity) _ h3 in
      let known = one_of_ok ("FUTURES" ∷ "OPTION" ∷ []) p.asset_type own in
      let sided = (one_of_ok ("BUY" ∷ "SELL" ∷ []) (or_empty p.side) own2).1 in
      let positive = proposal_checks_ok p (ground (arith, checked)) in
      (
        ground (arith, h4, id),
        ground (arith, h4, track),
        ground (arith, h4, positive),
        ground (arith, h4, sided),
        elim (part_of_ok asset p identity known.1 own3) [
          | inl (futures, kind, symbol) ↦
              inl
                (ground (arith, h4, futures), ground (arith, h4, kind), ground (arith, h4, symbol))
          | inr (option, symbol, expiry, (t, kind, among)) ↦ inr (
            ground (arith, h4, option),
            ground (arith, h4, symbol),
            ground (arith, h4, expiry),
            (t, ground (arith, h4, kind), among),
          )
        ],
      )

  pub signal_to_canonical-WellFormed :
      (signal : StrategySignal) (runtime : RuntimeSignalContext F)
      (identity : Option OptionInstrumentIdentity) {c : CanonicalStrategySignal F}
      → signal_to_canonical floats signal runtime identity ≡ ok c
      → WellFormed c
  unfolding signal_to_canonical require_non_empty
  signal_to_canonical-WellFormed signal runtime identity {c = c} h =
      let (id, own, h1) = bind-eq-ok (require_non_empty runtime.signal_id "SIGNAL_ID") _ h in
      let (track, own2, h2) = bind-eq-ok (require_non_empty runtime.track_id "TRACK_ID") _ h1 in
      elim (Option-cases signal.execution_proposal) [
        | inl e ↦ ground (arith, h2)
        | inr (p, e) ↦
            canonical_of-WellFormed signal (record runtime { signal_id = id; track_id = track })
              (given_or identity signal.instrument_identity) p {c = c} (ground (arith, own))
              (ground (arith, own2)) (ground (arith, h2, e))
      ]
