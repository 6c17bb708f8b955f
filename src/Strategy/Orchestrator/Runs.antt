-- ===== src/Strategy/Orchestrator/Runs.antt =====
-- A run of the orchestrator (core/strategy/orchestrator.py) touches only the strategies that it
-- runs.
use kospi200_project.Base.{
  ◌≡◌, refl, Bool, true, false, not, is_none, List, [], ◌∷◌, arith, inl, inr, Option-cases,
  Bool-cases, ◌⊎◌,
}
use kospi200_project.Base.Dict.{Dict, lookup}
use kospi200_project.Base.Exn.{Result, ok, err, is_ok, is_cancelled, Result-cases}
use kospi200_project.Strategy.Registry.{
  StrategyKey, same_key, Keyed, find, find-put, StrategyContext, Strategies, prepare, get,
  validate_context,
}
use kospi200_project.Strategy.Orchestrator.{
  StrategyOrchestrator, has_key, run_ready, run_prepared, run_one, run_keys, stored,
}

-- What the orchestrator knows of a strategy other than the one that runs.
abbrev pub Untouched :
    {T : Type 0} → StrategyKey → StrategyOrchestrator T → StrategyOrchestrator T → Type 0
Untouched j o o' =
    (find j o'.registry ≡ find j o.registry)
    × (has_key j o'.initialized ≡ has_key j o.initialized)
    × (o'.enabled ≡ o.enabled)
    × (o'.strategy_keys ≡ o.strategy_keys)

-- A call that returns or raises an `Exception`.
abbrev pub contained {ℓ} : {A : Type ℓ} → Result A → Bool
contained (ok _) = true
contained (err e) = not (is_cancelled e)

abbrev pub managed : {T : Type 0} → StrategyOrchestrator T → StrategyKey → Bool
managed o key = not (is_none (find key o.enabled))

prepare-contained :
    {D T : Type 0} (key : StrategyKey) (c : StrategyContext D) (registry : Keyed T)
    → contained (prepare key c registry) ≡ true
unfolding prepare validate_context get
prepare-contained key c registry = ground arith

-- What one step of the loop comes to: a strategy is run, or nothing changes and only a key that is
-- not managed makes it raise.
pub run_one_cases :
    {D S T : Type 0} (ops : Strategies D S T) (contexts : Dict (StrategyContext D))
    (key : StrategyKey) (o : StrategyOrchestrator T)
    → ((c : StrategyContext D) × (t : T) × (run_one ops contexts key o
          ≡ run_prepared ops key c t o))
      ⊎ (((run_one ops contexts key o).1 ≡ o)
          × ((managed o key ≡ false) ⊎ (is_ok (run_one ops contexts key o).0 ≡ true)))
unfolding run_one
run_one_cases ops contexts key o = elim (Option-cases (find key o.enabled)) [
  | inl e ↦ inr (ground arith, ground arith)
  | inr (false, e) ↦ inr (ground arith, ground arith)
  | inr (true, e) ↦ elim (Option-cases (lookup key.0 contexts)) [
    | inl e2 ↦ inr (ground arith, ground arith)
    | inr (c, e2) ↦ elim (Result-cases (prepare key c o.registry)) [
      | inl (t, e3) ↦ inl (c, t, ground arith)
      | inr (x, e3) ↦ inr (ground arith, ground (arith, prepare-contained key c o.registry))
    ]
  ]
]

module _ {D S T : Type 0} (ops : Strategies D S T) where
  run_ready-Untouched :
      (key : StrategyKey) (context : StrategyContext D) (strategy : T) (o : StrategyOrchestrator T)
      (j : StrategyKey)
      → same_key key j ≡ false
      → Untouched j o (run_ready ops key context strategy o).1
  unfolding run_ready
  run_ready-Untouched key context strategy o j other =
      let (r, s1) = ops.on_market_state context strategy in
      let (produced, s2) = ops.evaluate context s1 in
      elim (Result-cases r) [
        | inr (x, e) ↦
            (ground (arith, find-put key j s1 o.registry), ground arith, ground arith, ground arith)
        | inl (u, e) ↦ elim (Result-cases produced) [
          | inr (x, e2) ↦ (
            ground (arith, find-put key j s2 o.registry),
            ground arith,
            ground arith,
            ground arith,
          )
          | inl (l, e2) ↦ (
            ground (arith, find-put key j s2 o.registry),
            ground arith,
            ground arith,
            ground arith,
          )
        ]
      ]

  run_prepared-Untouched :
      (key : StrategyKey) (context : StrategyContext D) (strategy : T) (o : StrategyOrchestrator T)
      (j : StrategyKey)
      → same_key key j ≡ false
      → Untouched j o (run_prepared ops key context strategy o).1
  unfolding run_prepared
  run_prepared-Untouched key context strategy o j other =
      let (r, s1) = ops.initialize context strategy in
      let o' = record (stored key s1 o) { initialized = key ∷ o.initialized } in
      let (f, i, e, k) = run_ready-Untouched key context s1 o' j other in
      elim (Bool-cases (has_key key o.initialized)) [
        | inl done ↦ rw done (run_ready-Untouched key context strategy o j other)
        | inr fresh ↦ elim (Result-cases r) [
          | inr (x, e2) ↦ (
            ground (arith, find-put key j s1 o.registry),
            ground arith,
            ground arith,
            ground arith,
          )
          | inl (u, e2) ↦ (
            ground (arith, f, find-put key j s1 o.registry),
            ground (arith, i),
            ground (arith, e),
            ground (arith, k),
          )
        ]
      ]

  run_one-Untouched :
      (contexts : Dict (StrategyContext D)) (key : StrategyKey) (o : StrategyOrchestrator T)
      (j : StrategyKey)
      → same_key key j ≡ false
      → Untouched j o (run_one ops contexts key o).1
  run_one-Untouched contexts key o j other = elim (run_one_cases ops contexts key o) [
    | inl (c, t, e) ↦ rw e (run_prepared-Untouched key c t o j other)
    | inr (kept, _) ↦ rw kept (refl, refl, refl, refl)
  ]

  -- A run over other keys leaves a strategy's object, its initialisation and its switch as they were,
  -- also when it raises.
  pub run_keys-Untouched :
      (contexts : Dict (StrategyContext D)) (keys : List StrategyKey) (o : StrategyOrchestrator T)
      (j : StrategyKey)
      → has_key j keys ≡ false
      → Untouched j o (run_keys ops contexts keys o).1
  unfolding run_keys
  run_keys-Untouched contexts [] o j other = (refl, refl, refl, refl)
  run_keys-Untouched contexts (key ∷ keys) o j other =
      let (f, i, e, k) = run_one-Untouched contexts key o j (ground (arith, other)) in
      let o' = (run_one ops contexts key o).1 in
      let (f', i', e', k') = run_keys-Untouched contexts keys o' j (ground (arith, other)) in
      elim (Result-cases (run_one ops contexts key o).0) [
        | inl (r, ran) ↦ (
          ground (arith, ran, f, f'),
          ground (arith, ran, i, i'),
          ground (arith, ran, e, e'),
          ground (arith, ran, k, k'),
        )
        | inr (x, raised) ↦ (
          ground (arith, raised, f),
          ground (arith, raised, i),
          ground (arith, raised, e),
          ground (arith, raised, k),
        )
      ]
