-- ===== src/Strategy/Orchestrator/Containment.antt =====
-- A run of the orchestrator (core/strategy/orchestrator.py) returns whatever its strategies raise.
use kospi200_project.Base.{
  ◌≡◌, refl, sym, subst, true, not, is_none, List, [], ◌∷◌, arith, inl, inr, Bool-cases,
}
use kospi200_project.Base.Dict.{Dict}
use kospi200_project.Base.Lists.{All}
use kospi200_project.Base.Exn.{is_ok, Result-cases}
use kospi200_project.Strategy.Registry.{StrategyKey, find, StrategyContext, Strategies}
use kospi200_project.Strategy.Orchestrator.{
  StrategyOrchestrator, has_key, run_ready, run_prepared, run_one, run_keys, stored,
}
use kospi200_project.Strategy.Orchestrator.Runs.{run_one_cases, contained, managed}

-- The strategies' methods are never cancelled.
pub record Contained {D S T : Type 0} (ops : Strategies D S T) : Type 0 where
  pub initialize_contained :
      (c : StrategyContext D) (t : T) → contained (ops.initialize c t).0 ≡ true
  pub market_contained :
      (c : StrategyContext D) (t : T) → contained (ops.on_market_state c t).0 ≡ true
  pub evaluate_contained : (c : StrategyContext D) (t : T) → contained (ops.evaluate c t).0 ≡ true

module _ {D S T : Type 0} (ops : Strategies D S T) (calm : Contained ops) where
  run_ready-ok :
      (key : StrategyKey) (c : StrategyContext D) (t : T) (o : StrategyOrchestrator T)
      → is_ok (run_ready ops key c t o).0 ≡ true
  unfolding run_ready
  run_ready-ok key c t o =
      let (r, s1) = ops.on_market_state c t in
      let (produced, s2) = ops.evaluate c s1 in
      elim (Result-cases r) [
        | inr (x, e) ↦ ground (arith, calm.market_contained c t)
        | inl (u, e) ↦ elim (Result-cases produced) [
          | inr (x, e2) ↦ ground (arith, calm.evaluate_contained c s1)
          | inl (l, e2) ↦ ground arith
        ]
      ]

  run_prepared-ok :
      (key : StrategyKey) (c : StrategyContext D) (t : T) (o : StrategyOrchestrator T)
      → is_ok (run_prepared ops key c t o).0 ≡ true
  unfolding run_prepared
  run_prepared-ok key c t o =
      let (r, s1) = ops.initialize c t in
      let o' = record (stored key s1 o) { initialized = key ∷ o.initialized } in
      elim (Bool-cases (has_key key o.initialized)) [
        | inl done ↦ rw done (run_ready-ok key c t o)
        | inr fresh ↦ elim (Result-cases r) [
          | inr (x, e2) ↦ ground (arith, calm.initialize_contained c t)
          | inl (u, e2) ↦ ground (arith, run_ready-ok key c s1 o')
        ]
      ]

  run_one-ok :
      (contexts : Dict (StrategyContext D)) (key : StrategyKey) (o : StrategyOrchestrator T)
      → managed o key ≡ true
      → is_ok (run_one ops contexts key o).0 ≡ true
  run_one-ok contexts key o known = elim (run_one_cases ops contexts key o) [
    | inl (c, t, e) ↦ rw e (run_prepared-ok key c t o)
    | inr (kept, inl unknown) ↦ ground arith
    | inr (kept, inr returned) ↦ returned
  ]

module _ {D S T : Type 0} (ops : Strategies D S T) where
  run_prepared-enabled :
      (key : StrategyKey) (c : StrategyContext D) (t : T) (o : StrategyOrchestrator T)
      → (run_prepared ops key c t o).1.enabled ≡ o.enabled
  unfolding run_prepared run_ready
  run_prepared-enabled key c t o = ground arith

  run_one-enabled :
      (contexts : Dict (StrategyContext D)) (key : StrategyKey) (o : StrategyOrchestrator T)
      → (run_one ops contexts key o).1.enabled ≡ o.enabled
  run_one-enabled contexts key o = elim (run_one_cases ops contexts key o) [
    | inl (c, t, e) ↦ rw e (run_prepared-enabled key c t o)
    | inr (kept, _) ↦ rw kept refl
  ]

-- A run over managed keys returns whatever the strategies raise: their errors end up in its
-- failures.
pub run_keys_returns :
    {D S T : Type 0} (ops : Strategies D S T) (contexts : Dict (StrategyContext D))
    (keys : List StrategyKey) (o : StrategyOrchestrator T)
    → Contained ops
    → All (λ key. managed o key ≡ true) keys
    → is_ok (run_keys ops contexts keys o).0 ≡ true
unfolding run_keys
run_keys_returns ops contexts [] o calm known = refl
run_keys_returns ops contexts (key ∷ keys) o calm (first, others) =
    let (r, o') = run_one ops contexts key o in
    let same = run_one-enabled ops contexts key o in
    let others' = subst (λ d. All (λ k. not (is_none (find k d)) ≡ true) keys) (sym same) others in
    let rest = run_keys_returns ops contexts keys o' calm others' in
    let returned = run_one-ok ops calm contexts key o first in
    elim (Result-cases r) [
      | inl (a, e) ↦ elim (Result-cases (run_keys ops contexts keys o').0) [
        | inl (b, e2) ↦ ground arith
        | inr (x, e2) ↦ ground arith
      ]
      | inr (x, e) ↦ ground arith
    ]
