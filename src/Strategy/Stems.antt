-- ===== src/Strategy/Stems.antt =====
-- `signal_to_canonical` and `RuntimeStrategyToDecisionAdapter.arbitrate` of
-- core/strategy/orchestrator.py: the evaluation that a canonical signal stems from.
use kospi200_project.Base.{
  String, ◌≡◌, subst, Option, List, [], ◌∷◌, ◌++◌, map, arith, inl, inr, Bool-cases,
}
use mathlib.Core.List.{Perm}
use kospi200_project.Base.Text.{strip}
use kospi200_project.Base.Lists.{elem, All}
use kospi200_project.Base.Exn.{ok, bind, bind-eq-ok, ok_injective}
use kospi200_project.Contracts.{OptionInstrumentIdentity}
use kospi200_project.Decision.Arbiter.Outcome.{Agree, arbitrate_no_clash}
use kospi200_project.Decision.Arbiter.Balance.{signals_of, arbitrate-perm}
use kospi200_project.Strategy.Signals.{
  RuntimeStrategyEvaluation, CanonicalStrategySignal, RuntimeSignalContext, Floats,
  signal_to_canonical,
}
use kospi200_project.Strategy.Commands.{
  RuntimeDecisionResult, identified, view, canonical_signals, decide,
}
use kospi200_project.Strategy.Canonical.{WellFormed, signal_to_canonical-WellFormed}
use kospi200_project.Strategy.Sources.{IsCanonicalOf, signal_to_canonical-IsCanonicalOf}

module _ {F : Type 0} (floats : Floats F) where
  -- A well-formed canonical signal that is the one of the evaluation `e`, with the track and the
  -- signal's identity of `e`; the identity of an option is what `provider` gives for `e`, or else the
  -- signal's own.
  pub record Stems (price : F) (timestamp : String)
      (provider : RuntimeStrategyEvaluation → Option OptionInstrumentIdentity)
      (e : RuntimeStrategyEvaluation) (c : CanonicalStrategySignal F) : Type 0 where
    pub well_formed : WellFormed c
    pub track : String
    pub id : String
    pub same_identity : identified e ≡ ok (track, id)
    pub canonical :
        IsCanonicalOf floats e.result
          (provider e)
          (record {
            signal_id = strip id;
            track_id = strip track;
            price = price;
            timestamp = timestamp;
          })
          c

  -- One canonical signal for each evaluation, in order.
  abbrev pub AllStem :
      F
      → String
      → (RuntimeStrategyEvaluation → Option OptionInstrumentIdentity)
      → List RuntimeStrategyEvaluation
      → List (CanonicalStrategySignal F)
      → Type 0
  AllStem price timestamp provider [] [] = Unit
  AllStem price timestamp provider (e ∷ es) (c ∷ cs) =
      Stems price timestamp provider e c × AllStem price timestamp provider es cs
  AllStem price timestamp provider _ _ = ⊥

  canonical_signals-AllStem :
      (price : F) (timestamp : String)
      (provider : RuntimeStrategyEvaluation → Option OptionInstrumentIdentity) (seen : List String)
      (es : List RuntimeStrategyEvaluation) {cs : List (CanonicalStrategySignal F)}
      → canonical_signals floats price timestamp provider seen es ≡ ok cs
      → AllStem price timestamp provider es cs
  unfolding canonical_signals
  canonical_signals-AllStem price timestamp provider seen [] {cs = []} h = tt
  canonical_signals-AllStem price timestamp provider seen [] {cs = c ∷ cs} h = ground (arith, h)
  canonical_signals-AllStem price timestamp provider seen (e ∷ es) {cs = cs} h =
      let ((track, id), same, h1) = bind-eq-ok (identified e) _ h in
      let runtime : RuntimeSignalContext F = record {
        signal_id = id;
        track_id = track;
        price = price;
        timestamp = timestamp;
      } in
      elim (Bool-cases (elem id seen)) [
        | inl twice ↦ ground (arith, h1)
        | inr once ↦
            let later = canonical_signals floats price timestamp provider (id ∷ seen) es in
            let (c, first, h2) =
              bind-eq-ok (signal_to_canonical floats e.result runtime (provider e))
                (λ c. bind later (λ more. ok (c ∷ more))) {b = cs} (ground (arith, h1, once)) in
            let (rest, others, h3) =
              bind-eq-ok (canonical_signals floats price timestamp provider (id ∷ seen) es) _
                {b = cs} h2 in
            subst (AllStem price timestamp provider (e ∷ es)) {x = c ∷ rest} {y = cs}
              (ok_injective h3)
              (
                record {
                  well_formed =
                      signal_to_canonical-WellFormed floats e.result runtime (provider e) first;
                  track = track;
                  id = id;
                  same_identity = same;
                  canonical =
                      signal_to_canonical-IsCanonicalOf floats e.result runtime (provider e) first;
                },
                canonical_signals-AllStem price timestamp provider (id ∷ seen) es others,
              )
      ]

  -- When the decision returns, there is one canonical signal for each evaluation, in order: it is well
  -- formed, it bears the identity and the track of the evaluation and the asset type, the side and the
  -- quantity of the signal's proposal, and for an option the symbol, expiry, type and strike of the
  -- identity that the provider gave or else of the signal's own, which the proposal does not
  -- contradict. The approved and the rejected signals together are what the arbiter reads of the
  -- canonical ones, each as often, and no two approved ones take different sides of one instrument.
  pub decide-AllStem :
      (price : F) (timestamp : String)
      (provider : RuntimeStrategyEvaluation → Option OptionInstrumentIdentity)
      (es : List RuntimeStrategyEvaluation) {r : RuntimeDecisionResult F}
      → decide floats price timestamp provider es ≡ ok r
      → let approved = r.arbitration.approved_signals in
        AllStem price timestamp provider es r.canonical_signals
        × Perm
            (approved ++ signals_of r.arbitration.rejected_signals)
            (map (view floats) r.canonical_signals)
        × All (λ a. All (Agree a) approved) approved
  unfolding decide
  decide-AllStem price timestamp provider es {r = r} h =
      let (cs, made, h1) =
        bind-eq-ok (canonical_signals floats price timestamp provider [] es) _ h in
      let signals = map (view floats) cs in
      let same = ok_injective h1 in
      subst
        (λ (x : RuntimeDecisionResult F).
          let approved = x.arbitration.approved_signals in
          AllStem price timestamp provider es x.canonical_signals
          × Perm (approved ++ signals_of x.arbitration.rejected_signals)
              (map (view floats) x.canonical_signals)
          × All (λ a. All (Agree a) approved) approved)
        same
        (
          canonical_signals-AllStem price timestamp provider [] es made,
          (arbitrate-perm signals).0,
          arbitrate_no_clash signals,
        )
