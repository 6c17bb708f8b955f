-- ===== src/Strategy/Traces.antt =====
-- `build_commands` of core/strategy/orchestrator.py: every command traces back to one evaluation.
use kospi200_project.Base.{
  String, ◌≡◌, refl, ap, subst, ◌∙◌, true, false, some, List, [], ◌∷◌, arith, inl, inr,
  Option-cases, Bool-cases,
}
use kospi200_project.Base.Int.{pos, leb_ℤ}
use kospi200_project.Base.Text.{◌==◌, eq_iff, strip, truthy, or_empty}
use kospi200_project.Base.Dict.{Dict, lookup, insert, contains, lookup-insert}
use kospi200_project.Base.Lists.{Among}
use kospi200_project.Base.Exn.{ok, bind-eq-ok}
use kospi200_project.Strategy.Signals.{
  RuntimeStrategyEvaluation, CanonicalStrategySignal, client_order_id,
}
use kospi200_project.Strategy.Commands.{
  identified, CanonicalOrderCommand, approved_signal_to_command, command_of, commands_of,
  contexts_of, build_commands,
}

-- The evaluation that stands behind an identity.
abbrev pub Behind : List RuntimeStrategyEvaluation → String → RuntimeStrategyEvaluation → Type 0
Behind es id e = Among e es × (track : String) × (identified e ≡ ok (track, id))

contexts-Behind :
    (all es : List RuntimeStrategyEvaluation) (d : Dict RuntimeStrategyEvaluation)
    {d' : Dict RuntimeStrategyEvaluation}
    → ((e : RuntimeStrategyEvaluation) → Among e es → Among e all)
    → ((id : String) (e : RuntimeStrategyEvaluation) → lookup id d ≡ some e → Behind all id e)
    → contexts_of d es ≡ ok d'
    → (id : String) (e : RuntimeStrategyEvaluation) → lookup id d' ≡ some e
    → Behind all id e
unfolding contexts_of
contexts-Behind all [] d sub h done id e found = h id e (ground (arith, done, found))
contexts-Behind all (e0 ∷ es) d sub h done id e found =
    let ((track, id0), same, next) = bind-eq-ok (identified e0) _ done in
    elim (Bool-cases (contains id0 d)) [
      | inl twice ↦ ground arith
      | inr once ↦
          contexts-Behind all es (insert id0 e0 d) (λ x here. sub x (inr here))
            (λ k x at. elim (Bool-cases (id0 == k)) [
              | inl this ↦
                  let e1 : e0 ≡ x = ground (arith, lookup-insert id0 k e0 d, eq_iff id0 k) in
                  let k1 : id0 ≡ k = ground (arith, eq_iff id0 k) in
                  subst (λ y. Behind all k y) e1
                    (sub e0 (inl refl), track, same ∙ ap (λ y. ok (track, y)) k1)
              | inr other ↦ h k x (ground (arith, lookup-insert id0 k e0 d, eq_iff id0 k))
            ])
            (ground (arith, next, once)) id e found
    ]

module _ {F : Type 0} where
  -- What a command takes from its signal, with the order identity `id`.
  abbrev pub Carries : CanonicalStrategySignal F → String → CanonicalOrderCommand F → Type 0
  Carries s id c =
      (c.client_order_id ≡ strip id)
      × (truthy c.client_order_id ≡ true)
      × (c.track_id ≡ s.track_id)
      × (c.side ≡ s.side)
      × (c.qty ≡ s.qty)
      × (leb_ℤ c.qty (pos 0) ≡ false)

  -- A command, the approved signal that it carries out, and the evaluation that gave it its identity.
  abbrev pub Traced :
      List RuntimeStrategyEvaluation → CanonicalStrategySignal F → CanonicalOrderCommand F → Type 0
  Traced es s c =
      (e : RuntimeStrategyEvaluation) × (id : String) × Behind es s.signal_id e
      × (strip (or_empty e.context_strategy_id) ≡ s.track_id)
      × (client_order_id e.runtime_context s.track_id ≡ ok id)
      × Carries s id c

  -- One command for each signal, in order.
  abbrev pub AllTraced :
      List RuntimeStrategyEvaluation
      → List (CanonicalStrategySignal F)
      → List (CanonicalOrderCommand F)
      → Type 0
  AllTraced es [] [] = Unit
  AllTraced es (s ∷ ss) (c ∷ cs) = Traced es s c × AllTraced es ss cs
  AllTraced es _ _ = ⊥

  command-Carries :
      (s : CanonicalStrategySignal F) (id : String) {c : CanonicalOrderCommand F}
      → approved_signal_to_command s id ≡ ok c
      → Carries s id c
  unfolding approved_signal_to_command
  command-Carries s id h =
      (ground arith, ground arith, ground arith, ground arith, ground arith, ground arith)

  command_of-Traced :
      (es : List RuntimeStrategyEvaluation) (d : Dict RuntimeStrategyEvaluation)
      (s : CanonicalStrategySignal F) {c : CanonicalOrderCommand F}
      → ((id : String) (e : RuntimeStrategyEvaluation) → lookup id d ≡ some e → Behind es id e)
      → command_of d s ≡ ok c
      → Traced es s c
  unfolding command_of
  command_of-Traced es d s {c = c} h made = elim (Option-cases (lookup s.signal_id d)) [
    | inl absent ↦ ground arith
    | inr (e, found) ↦
        let track = strip (or_empty e.context_strategy_id) in
        elim (Bool-cases (track == s.track_id)) [
          | inr differs ↦ ground arith
          | inl same ↦
              let own : track ≡ s.track_id = ground (arith, eq_iff track s.track_id) in
              let (id, given, sent) =
                bind-eq-ok (client_order_id e.runtime_context track) (approved_signal_to_command s)
                  {b = c} (ground (arith, made, found, same)) in
              (
                e,
                id,
                h s.signal_id e found,
                own,
                subst (λ t. client_order_id e.runtime_context t ≡ ok id) own given,
                command-Carries s id sent,
              )
        ]
  ]

  commands_of-AllTraced :
      (es : List RuntimeStrategyEvaluation) (d : Dict RuntimeStrategyEvaluation)
      (ss : List (CanonicalStrategySignal F)) {cs : List (CanonicalOrderCommand F)}
      → ((id : String) (e : RuntimeStrategyEvaluation) → lookup id d ≡ some e → Behind es id e)
      → commands_of d ss ≡ ok cs
      → AllTraced es ss cs
  unfolding commands_of
  commands_of-AllTraced es d [] {cs = []} h made = tt
  commands_of-AllTraced es d [] {cs = c ∷ cs} h made = ground (arith, made)
  commands_of-AllTraced es d (s ∷ ss) h made =
      let (c, first, next) = bind-eq-ok (command_of d s) _ made in
      let (cs', rest, all) = bind-eq-ok (commands_of d ss) _ next in
      subst (AllTraced es (s ∷ ss)) {x = c ∷ cs'} (ground (arith, all))
        (command_of-Traced es d s h first, commands_of-AllTraced es d ss h rest)

-- When `build_commands` returns, there is one command for each approved signal, in order: it carries
-- the signal's track, side and positive quantity, and its order identity is the one of an evaluation
-- that was passed in and that bears the signal's identity and track.
pub build_commands-AllTraced :
    {F : Type 0} (es : List RuntimeStrategyEvaluation) (approved : List (CanonicalStrategySignal F))
    {commands : List (CanonicalOrderCommand F)}
    → build_commands es approved ≡ ok commands
    → AllTraced es approved commands
unfolding build_commands lookup
build_commands-AllTraced es approved made =
    let (d, known, sent) = bind-eq-ok (contexts_of [] es) _ made in
    commands_of-AllTraced es d approved
      (contexts-Behind es es [] (λ e here. here) (λ id e found. ground (arith, found)) known) sent
