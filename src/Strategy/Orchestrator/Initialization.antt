-- ===== src/Strategy/Orchestrator/Initialization.antt =====
-- No strategy is initialised twice by the orchestrator (core/strategy/orchestrator.py).
use kospi200_project.Base.{
  ◌≡◌, refl, ap, ◌∙◌, true, false, List, [], ◌∷◌, arith, inl, inr, Option-cases,
}
use kospi200_project.Base.Dict.{Dict, lookup}
use kospi200_project.Base.Lists.{All, All-map}
use kospi200_project.Base.Exn.{Method, Result-cases}
use kospi200_project.Strategy.Registry.{StrategyKey, find, StrategyContext, Strategies, prepare}
use kospi200_project.Strategy.Orchestrator.{
  StrategyOrchestrator, has_key, run_ready, run_prepared, run_one, run_keys, joined,
}
use kospi200_project.Strategy.Orchestrator.Runs.{run_one_cases}

module _ {D S T : Type 0} (ops : Strategies D S T) where
  run_prepared-initialized :
      (key j : StrategyKey) (c : StrategyContext D) (t : T) (o : StrategyOrchestrator T)
      → has_key j o.initialized ≡ true
      → has_key j (run_prepared ops key c t o).1.initialized ≡ true
  unfolding run_prepared run_ready
  run_prepared-initialized key j c t o done = ground arith

-- The same strategies with another `initialize`.
abbrev pub with_initialize :
    {D S T : Type 0}
    → (StrategyContext D → Method T (Unit {0}))
    → Strategies D S T
    → Strategies D S T
with_initialize f ops = record ops { initialize = f }

module _ {D S T : Type 0} (ops : Strategies D S T)
    (f : StrategyContext D → Method T (Unit {0})) where
  run_ready_again :
      (key : StrategyKey) (c : StrategyContext D) (t : T) (o : StrategyOrchestrator T)
      → run_ready (with_initialize f ops) key c t o ≡ run_ready ops key c t o
  unfolding run_ready
  run_ready_again key c t o = refl

  run_prepared_again :
      (key : StrategyKey) (c : StrategyContext D) (t : T) (o : StrategyOrchestrator T)
      → has_key key o.initialized ≡ true
      → run_prepared (with_initialize f ops) key c t o ≡ run_prepared ops key c t o
  unfolding run_prepared
  run_prepared_again key c t o done = ground (arith, run_ready_again key c t o)

  run_one_again :
      (contexts : Dict (StrategyContext D)) (key : StrategyKey) (o : StrategyOrchestrator T)
      → has_key key o.initialized ≡ true
      → run_one (with_initialize f ops) contexts key o ≡ run_one ops contexts key o
  unfolding run_one
  run_one_again contexts key o done = elim (Option-cases (find key o.enabled)) [
    | inl e ↦ ground arith
    | inr (false, e) ↦ ground arith
    | inr (true, e) ↦ elim (Option-cases (lookup key.0 contexts)) [
      | inl e2 ↦ ground arith
      | inr (c, e2) ↦ elim (Result-cases (prepare key c o.registry)) [
        | inl (t, e3) ↦ ground (arith, run_prepared_again key c t o done)
        | inr (x, e3) ↦ ground arith
      ]
    ]
  ]

  run_one-initialized :
      (contexts : Dict (StrategyContext D)) (key j : StrategyKey) (o : StrategyOrchestrator T)
      → has_key j o.initialized ≡ true
      → has_key j (run_one ops contexts key o).1.initialized ≡ true
  run_one-initialized contexts key j o done = elim (run_one_cases ops contexts key o) [
    | inl (c, t, e) ↦ rw e (run_prepared-initialized ops key j c t o done)
    | inr (kept, _) ↦ rw kept done
  ]

-- Once every strategy of a run has been initialised, the run never calls `initialize`: with any
-- other `initialize` in its place the result and the state after it are the same.
pub initialize_once :
    {D S T : Type 0} (ops : Strategies D S T) (f : StrategyContext D → Method T (Unit {0}))
    (contexts : Dict (StrategyContext D)) (keys : List StrategyKey) (o : StrategyOrchestrator T)
    → All (λ key. has_key key o.initialized ≡ true) keys
    → run_keys (with_initialize f ops) contexts keys o ≡ run_keys ops contexts keys o
unfolding run_keys
initialize_once ops f contexts [] o done = refl
initialize_once ops f contexts (key ∷ keys) o (first, others) =
    let o' = (run_one ops contexts key o).1 in
    let others' = All-map (λ j h. run_one-initialized ops f contexts key j o h) keys others in
    let rest = initialize_once ops f contexts keys o' others' in
    let again = run_one_again ops f contexts key o first in
    ap (λ r. joined r (run_keys (with_initialize f ops) contexts keys r.1)) again
    ∙ ap (joined (run_one ops contexts key o)) rest
