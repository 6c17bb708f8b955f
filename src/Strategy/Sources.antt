-- ===== src/Strategy/Sources.antt =====
-- `signal_to_canonical` of core/strategy/orchestrator.py: where the values of a canonical signal come
-- from.
use kospi200_project.Base.{
  String, ◌≡◌, refl, ap, sym, ◌∙◌, subst, true, false, Option, none, some, [], ◌∷◌, arith, inl, inr,
  ◌⊎◌, Option-cases, Bool-cases,
}
use kospi200_project.Base.Text.{◌==◌, eq_iff, strip, truthy, or_empty}
use kospi200_project.Base.Decimal.{Decimal, eqd}
use kospi200_project.Base.Lists.{elem}
use kospi200_project.Base.Exn.{ok, bind-eq-ok, ok_injective}
use kospi200_project.Contracts.{OptionInstrumentIdentity}
use kospi200_project.Strategy.Signals.{
  StrategySignal, CanonicalStrategySignal, RuntimeSignalContext, Floats, OptionPart,
  StrategyExecutionProposal, signal_to_canonical, part_of, option_part, one_of, proposal_checks,
  require_non_empty, canonical_of, given_or, given_differs, strike_differs,
}
use kospi200_project.Strategy.Canonical.{one_of_ok}

module _ {F : Type 0} (floats : Floats F) where
  -- The part is that of the identity `i`, which is complete, and which the option type and the strike
  -- of the proposal do not contradict.
  pub record IsOptionOf (p : StrategyExecutionProposal) (i : OptionInstrumentIdentity)
      (part : OptionPart F) : Type 0 where
    pub identified_by : truthy i.instrument_id ≡ true
    pub same_symbol : part.symbol ≡ i.symbol
    pub same_expiry : i.expiry ≡ some part.expiry
    pub same_type : part.option_type ≡ i.option_type
    pub type_proposed : (p.option_type ≡ none) ⊎ (p.option_type ≡ i.option_type)
    pub strike_value : Decimal
    pub strike_given : i.strike ≡ some strike_value
    pub same_strike : part.strike ≡ floats.to_float strike_value
    pub strike_proposed :
        (p.strike ≡ none) ⊎ ((d : Decimal) × (p.strike ≡ some d) × (eqd d strike_value ≡ true))

  abbrev pub option_part_in : CanonicalStrategySignal F → OptionPart F
  option_part_in c = record {
    option_type = c.option_type;
    strike = c.strike;
    symbol = c.symbol;
    expiry = c.expiry;
  }

  type_agrees :
      (p : Option String) (o : String) → given_differs p o ≡ false → (p ≡ none) ⊎ (p ≡ some o)
  type_agrees none o h = inl refl
  type_agrees (some a) o h = inr (ground (arith, eq_iff a o))

  strike_agrees :
      (p : Option Decimal) (k : Decimal)
      → strike_differs p k ≡ false
      → (p ≡ none) ⊎ ((d : Decimal) × (p ≡ some d) × (eqd d k ≡ true))
  unfolding strike_differs
  strike_agrees none k h = inl refl
  strike_agrees (some a) k h = inr (a, refl, ground arith)

  option_part-IsOptionOf :
      (p : StrategyExecutionProposal) (i : OptionInstrumentIdentity) {part : OptionPart F}
      → option_part floats p i ≡ ok part
      → IsOptionOf p i part
  unfolding option_part one_of
  option_part-IsOptionOf p i {part = part} h = elim (Option-cases i.option_type) [
    | inl e ↦ ground arith
    | inr (o, e) ↦ elim (Option-cases i.strike) [
      | inl e2 ↦ ground arith
      | inr (k, e2) ↦ elim (Option-cases i.expiry) [
        | inl e3 ↦ ground (arith, ap (λ x. truthy (or_empty x)) e3)
        | inr (x, e3) ↦ record {
          identified_by = ground arith;
          same_symbol = ground arith;
          same_expiry = e3 ∙ ap some (ground (arith, ap or_empty e3));
          same_type = ground arith;
          type_proposed = rw e (type_agrees p.option_type o (ground arith));
          strike_value = k;
          strike_given = e2;
          same_strike = ground arith;
          strike_proposed = strike_agrees p.strike k (ground arith);
        }
      ]
    ]
  ]

  -- The canonical signal of a strategy's signal: the values of the runtime, what the signal proposes,
  -- and for an option the instrument of the identity that was given with it, or else of its own.
  pub record IsCanonicalOf (signal : StrategySignal) (given : Option OptionInstrumentIdentity)
      (runtime : RuntimeSignalContext F) (c : CanonicalStrategySignal F) : Type 0 where
    pub proposal : StrategyExecutionProposal
    pub proposed : signal.execution_proposal ≡ some proposal
    pub same_side : proposal.side ≡ some c.side
    pub same_qty : c.qty ≡ proposal.proposed_quantity
    pub same_asset_type : c.asset_type ≡ proposal.asset_type
    pub same_tag : c.tag_id ≡ or_empty proposal.tag_id
    pub same_reason : c.reason ≡ signal.reason
    pub same_signal_id : c.signal_id ≡ runtime.signal_id
    pub same_track_id : c.track_id ≡ runtime.track_id
    pub same_price : c.price ≡ runtime.price
    pub same_timestamp : c.timestamp ≡ runtime.timestamp
    pub instrument :
        (c.asset_type ≡ "FUTURES")
        ⊎ ((i : OptionInstrumentIdentity) × ((given ≡ some i)
              ⊎ ((given ≡ none) × (signal.instrument_identity ≡ some i)))
            × IsOptionOf proposal i (option_part_in c))

  given_or_cases :
      (given own : Option OptionInstrumentIdentity) (i : OptionInstrumentIdentity)
      → given_or given own ≡ some i
      → (given ≡ some i) ⊎ ((given ≡ none) × (own ≡ some i))
  given_or_cases none own i h = inr (refl, h)
  given_or_cases (some j) own i h = inl h

  part_of-IsOptionOf :
      (asset : String) (p : StrategyExecutionProposal) (given own : Option OptionInstrumentIdentity)
      {part : OptionPart F}
      → elem asset ("FUTURES" ∷ "OPTION" ∷ []) ≡ true
      → part_of floats asset p (given_or given own) ≡ ok part
      → (asset ≡ "FUTURES")
        ⊎ ((i : OptionInstrumentIdentity) × ((given ≡ some i) ⊎ ((given ≡ none) × (own ≡ some i)))
            × IsOptionOf p i part)
  unfolding part_of
  part_of-IsOptionOf asset p given own {part = part} known h =
      elim (Bool-cases (asset == "OPTION")) [
        | inr other ↦
            inl
              (ground (arith, eq_iff "FUTURES" asset, eq_iff "OPTION" asset, eq_iff asset "OPTION"))
        | inl option ↦ elim (Option-cases (given_or given own)) [
          | inl e ↦ ground (arith, rw (option, e) at h)
          | inr (i, e) ↦
              inr
                (i, given_or_cases given own i e, option_part-IsOptionOf p i (rw (option, e) at h))
        ]
      ]

  side_given :
      (p : Option String) (side : String) → truthy side ≡ true → or_empty p ≡ side → p ≡ some side
  side_given none side h e = ground (arith, rw (← e) at h)
  side_given (some s) side h e = ap some e

  canonical_of-IsCanonicalOf :
      (signal : StrategySignal) (runtime : RuntimeSignalContext F)
      (given : Option OptionInstrumentIdentity) (p : StrategyExecutionProposal)
      {c : CanonicalStrategySignal F}
      → signal.execution_proposal ≡ some p
      → canonical_of floats signal runtime (given_or given signal.instrument_identity) p ≡ ok c
      → IsCanonicalOf signal given runtime c
  unfolding canonical_of
  canonical_of-IsCanonicalOf signal runtime given p {c = c} own h =
      let identity = given_or given signal.instrument_identity in
      let (u, checked, h1) = bind-eq-ok (proposal_checks p) _ h in
      let (asset, own1, h2) = bind-eq-ok (one_of ("FUTURES" ∷ "OPTION" ∷ []) p.asset_type) _ h1 in
      let (side, own2, h3) = bind-eq-ok (one_of ("BUY" ∷ "SELL" ∷ []) (or_empty p.side)) _ h2 in
      let (part, own3, h4) = bind-eq-ok (part_of floats asset p identity) _ h3 in
      let same = ok_injective h4 in
      let (asset_eq, known) = one_of_ok floats ("FUTURES" ∷ "OPTION" ∷ []) p.asset_type own1 in
      let (side_eq, sided) = one_of_ok floats ("BUY" ∷ "SELL" ∷ []) (or_empty p.side) own2 in
      let sides : side ≡ c.side = ap (λ (x : CanonicalStrategySignal F). x.side) same in
      let part_eq = ap option_part_in same in
      let assets : asset ≡ c.asset_type =
        ap (λ (x : CanonicalStrategySignal F). x.asset_type) same in
      record {
        proposal = p;
        proposed = own;
        same_side =
            side_given p.side c.side (ground (arith, sided, sides, eq_iff c.side "BUY"))
              (sym side_eq ∙ sides);
        same_qty = sym (ap (λ (x : CanonicalStrategySignal F). x.qty) same);
        same_asset_type = sym assets ∙ asset_eq;
        same_tag = sym (ap (λ (x : CanonicalStrategySignal F). x.tag_id) same);
        same_reason = sym (ap (λ (x : CanonicalStrategySignal F). x.reason) same);
        same_signal_id = sym (ap (λ (x : CanonicalStrategySignal F). x.signal_id) same);
        same_track_id = sym (ap (λ (x : CanonicalStrategySignal F). x.track_id) same);
        same_price = sym (ap (λ (x : CanonicalStrategySignal F). x.price) same);
        same_timestamp = sym (ap (λ (x : CanonicalStrategySignal F). x.timestamp) same);
        instrument = elim (part_of-IsOptionOf asset p given signal.instrument_identity known own3) [
          | inl futures ↦ inl (sym assets ∙ futures)
          | inr (i, source, optional) ↦
              inr (
                i,
                source,
                subst (IsOptionOf p i) {x = part} {y = option_part_in c} part_eq optional,
              )
        ];
      }

  require_non_empty_ok :
      (value name : String) {t : String} → require_non_empty value name ≡ ok t → t ≡ strip value
  unfolding require_non_empty
  require_non_empty_ok value name h = ground arith

  pub signal_to_canonical-IsCanonicalOf :
      (signal : StrategySignal) (runtime : RuntimeSignalContext F)
      (given : Option OptionInstrumentIdentity) {c : CanonicalStrategySignal F}
      → signal_to_canonical floats signal runtime given ≡ ok c
      → IsCanonicalOf signal given
          (record runtime {
            signal_id = strip runtime.signal_id;
            track_id = strip runtime.track_id;
          })
          c
  unfolding signal_to_canonical
  signal_to_canonical-IsCanonicalOf signal runtime given {c = c} h =
      let (id, own, h1) = bind-eq-ok (require_non_empty runtime.signal_id "SIGNAL_ID") _ h in
      let (track, own2, h2) = bind-eq-ok (require_non_empty runtime.track_id "TRACK_ID") _ h1 in
      elim (Option-cases signal.execution_proposal) [
        | inl e ↦ ground (arith, h2)
        | inr (p, e) ↦
            subst
              (λ t.
                IsCanonicalOf signal given
                  (record runtime { signal_id = t; track_id = strip runtime.track_id }) c)
              (require_non_empty_ok runtime.signal_id "SIGNAL_ID" own)
              (subst
                (λ t.
                  IsCanonicalOf signal given (record runtime { signal_id = id; track_id = t }) c)
                (require_non_empty_ok runtime.track_id "TRACK_ID" own2)
                (canonical_of-IsCanonicalOf signal
                  (record runtime { signal_id = id; track_id = track }) given p {c = c} e
                  (ground (arith, h2, e))))
      ]
