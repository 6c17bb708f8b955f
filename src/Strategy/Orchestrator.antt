-- ===== src/Strategy/Orchestrator.antt =====
-- core/strategy/orchestrator.py: `StrategyOrchestrator`. The contexts are a dictionary; the registry
-- is the one that the orchestrator holds, with the objects as their methods left them. A
-- cancellation is no `Exception`, so it passes through the handlers.
pub mod Runs
pub mod Containment
pub mod Initialization
use kospi200_project.Base.{
  ℕ, ◌≡◌, refl, String, Bool, true, false, not, ◌||◌, Option, none, some, is_none, List, [], ◌∷◌,
  ◌++◌, map, if◌then◌else◌, arith, inl, inr, Option-cases, Bool-cases,
}
use kospi200_project.Base.Dict.{Dict, lookup}
use kospi200_project.Base.Lists.{All, length}
use kospi200_project.Base.Exn.{
  Exn, Result, ok, err, is_ok, raise, bind, Method, is_cancelled, key_error, Result-cases,
}
use kospi200_project.Strategy.Registry.{
  StrategyKey, same_key, same_key-true, same_key_self, Keyed, find, put, find-put, StrategyContext,
  Strategies, prepare, get,
}

pub data Stage : Type 0 where
  at_context at_prepare at_initialize at_on_market_state at_evaluate : Stage

pub record StrategyRunFailure : Type 0 where
  pub key : StrategyKey
  pub stage : Stage
  pub error : Exn

pub record StrategyRunResult (S : Type 0) : Type 0 where
  pub signals : List S
  pub failures : List StrategyRunFailure

pub record StrategyOrchestrator (T : Type 0) : Type 0 where
  pub registry : Keyed T
  pub strategy_keys : List StrategyKey
  pub enabled : Keyed Bool
  pub initialized : List StrategyKey

-- `key in self._initialized`
abbrev pub has_key : StrategyKey → List StrategyKey → Bool
has_key k [] = false
has_key k (j ∷ js) = same_key j k || has_key k js

-- `self._enabled` of the constructor.
unfoldable pub all_enabled : List StrategyKey → Keyed Bool
all_enabled [] = []
all_enabled (k ∷ ks) = put k true (all_enabled ks)

abbrev pub new_orchestrator : {T : Type 0} → Keyed T → List StrategyKey → StrategyOrchestrator T
new_orchestrator registry keys = record {
  registry = registry;
  strategy_keys = keys;
  enabled = all_enabled keys;
  initialized = [];
}

unfoldable pub set_enabled :
    {T : Type 0} → StrategyKey → Bool → Method (StrategyOrchestrator T) (Unit {0})
set_enabled key value o =
    if is_none (find key o.enabled)
    then (raise key_error "strategy not managed", o)
    else (ok tt, record o { enabled = put key value o.enabled })

unfoldable pub is_enabled : {T : Type 0} → StrategyKey → StrategyOrchestrator T → Result Bool
is_enabled key o = elim (find key o.enabled) [
  | none ↦ raise key_error "strategy not managed"
  | some value ↦ ok value
]

abbrev no_context : Exn
no_context = record { class = key_error; message = "strategy context not supplied" }

abbrev pub nothing : {S : Type 0} → StrategyRunResult S
nothing = record { signals = []; failures = [] }

-- `except Exception`
abbrev pub failed : {S : Type 0} → StrategyKey → Stage → Exn → Result (StrategyRunResult S)
failed key stage e =
    if is_cancelled e
    then err e
    else ok
        (record { signals = []; failures = record { key = key; stage = stage; error = e } ∷ [] })

-- The object as the call left it.
abbrev pub stored : {T : Type 0} → StrategyKey → T → StrategyOrchestrator T → StrategyOrchestrator T
stored key strategy o = record o { registry = put key strategy o.registry }

abbrev pub join : {S : Type 0} → StrategyRunResult S → StrategyRunResult S → StrategyRunResult S
join a b = record { signals = a.signals ++ b.signals; failures = a.failures ++ b.failures }

-- The result of a first key and of the others; a raise ends the loop, and its signals are lost.
abbrev pub joined :
    {S T : Type 0}
    → Result (StrategyRunResult S) × StrategyOrchestrator T
    → Result (StrategyRunResult S) × StrategyOrchestrator T
    → Result (StrategyRunResult S) × StrategyOrchestrator T
joined (r, o') (rest, o'') = elim r [
  | err e ↦ (err e, o')
  | ok first ↦ (bind rest (λ more. ok (join first more)), o'')
]

module _ {D S T : Type 0} where
  -- From `on_market_state` on.
  unfoldable pub run_ready :
      Strategies D S T
      → StrategyKey
      → StrategyContext D
      → T
      → Method (StrategyOrchestrator T) (StrategyRunResult S)
  run_ready ops key context strategy o =
      let (r, s1) = ops.on_market_state context strategy in
      let (produced, s2) = ops.evaluate context s1 in
      elim r [
        | err e ↦ (failed key at_on_market_state e, stored key s1 o)
        | ok _ ↦ elim produced [
          | err e ↦ (failed key at_evaluate e, stored key s2 o)
          | ok signals ↦ (ok (record { signals = signals; failures = [] }), stored key s2 o)
        ]
      ]

  unfoldable pub run_prepared :
      Strategies D S T
      → StrategyKey
      → StrategyContext D
      → T
      → Method (StrategyOrchestrator T) (StrategyRunResult S)
  unfolding run_ready
  run_prepared ops key context strategy o =
      if has_key key o.initialized
      then run_ready ops key context strategy o
      else (let (r, s1) = ops.initialize context strategy in
          elim r [
            | err e ↦ (failed key at_initialize e, stored key s1 o)
            | ok _ ↦
                run_ready ops key context s1
                  (record (stored key s1 o) { initialized = key ∷ o.initialized })
          ])

  -- The body of the loop of `run`.
  unfoldable pub run_one :
      Strategies D S T
      → Dict (StrategyContext D)
      → StrategyKey
      → Method (StrategyOrchestrator T) (StrategyRunResult S)
  unfolding run_prepared
  run_one ops contexts key o = elim (find key o.enabled) [
    | none ↦ (raise key_error "strategy not managed", o)
    | some false ↦ (ok nothing, o)
    | some true ↦ elim (lookup key.0 contexts) [
      | none ↦ (failed key at_context no_context, o)
      | some context ↦ elim (prepare key context o.registry) [
        | err e ↦ (failed key at_prepare e, o)
        | ok strategy ↦ run_prepared ops key context strategy o
      ]
    ]
  ]

  unfoldable pub run_keys :
      Strategies D S T
      → Dict (StrategyContext D)
      → List StrategyKey
      → Method (StrategyOrchestrator T) (StrategyRunResult S)
  run_keys ops contexts [] o = (ok nothing, o)
  run_keys ops contexts (key ∷ keys) o =
      joined (run_one ops contexts key o)
        (run_keys ops contexts keys (run_one ops contexts key o).1)

  -- `run`; without a selection it takes the keys of the constructor.
  unfoldable pub run :
      Strategies D S T
      → Dict (StrategyContext D)
      → Option (List StrategyKey)
      → Method (StrategyOrchestrator T) (StrategyRunResult S)
  run ops contexts selected o =
      let keys : List StrategyKey = elim selected [ some ks ↦ ks | none ↦ o.strategy_keys ] in
      run_keys ops contexts keys o

  -- The loop of `reset`: a strategy that is not registered, or whose `reset` raises, ends it.
  unfoldable pub reset_keys : Strategies D S T → List StrategyKey → Method (Keyed T) (Unit {0})
  reset_keys ops [] registry = (ok tt, registry)
  reset_keys ops (key ∷ keys) registry = elim (get key registry) [
    | err e ↦ (err e, registry)
    | ok strategy ↦
        let (r, s1) = ops.reset strategy in
        let rest = reset_keys ops keys (put key s1 registry) in
        elim r [ err e ↦ (err e, put key s1 registry) | ok _ ↦ rest ]
  ]

  unfoldable pub reset : Strategies D S T → Method (StrategyOrchestrator T) (Unit {0})
  reset ops o =
      let (r, registry) = reset_keys ops o.strategy_keys o.registry in
      elim r [
        | err e ↦ (err e, record o { registry = registry })
        | ok _ ↦ (ok tt, record o { registry = registry; initialized = [] })
      ]
