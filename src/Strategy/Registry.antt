-- ===== src/Strategy/Registry.antt =====
-- core/strategy/registry.py and the data of core/strategy/contracts.py. A strategy is an object of
-- any type with the four methods of the protocol; what it reads besides its identity is one value.
-- The texts of the errors leave out the key that the source prints in them.
use kospi200_project.Base.{
  ◌≡◌, refl, String, Bool, true, not, ◌&&◌, Option, none, some, is_none, List, [], ◌∷◌,
  if◌then◌else◌, arith, Option-cases, inl, inr,
}
use kospi200_project.Base.Text.{◌==◌, eq_iff}
use kospi200_project.Base.Exn.{
  Result, Result-cases, is_ok, ok, raise, bind, Method, value_error, key_error,
}

-- `(strategy_id, version)`
abbrev pub StrategyKey : Type 0
StrategyKey = String × String

abbrev pub same_key : StrategyKey → StrategyKey → Bool
same_key (i, v) (j, w) = i == j && v == w

pub same_key-true : (a b : StrategyKey) → same_key a b ≡ true → a ≡ b
same_key-true (i, v) (j, w) h = ground (arith, eq_iff i j, eq_iff v w)

pub same_key_self : (a : StrategyKey) → same_key a a ≡ true
same_key_self (i, v) = ground (arith, eq_iff i i, eq_iff v v)

-- A dictionary with such keys, in insertion order.
abbrev pub Keyed : Type 0 → Type 0
Keyed V = List (StrategyKey × V)

module _ {V : Type 0} where
  unfoldable pub find : StrategyKey → Keyed V → Option V
  find k [] = none
  find k ((j, v) ∷ d) = if same_key j k then some v else find k d

  unfoldable pub put : StrategyKey → V → Keyed V → Keyed V
  put k v [] = (k, v) ∷ []
  put k v ((j, w) ∷ d) = if same_key j k then (j, v) ∷ d else (j, w) ∷ put k v d

  pub find-put :
      (k j : StrategyKey) (v : V) (d : Keyed V)
      → find j (put k v d) ≡ (if same_key k j then some v else find j d)
  unfolding find put
  find-put k j v [] = refl
  find-put k j v ((i, w) ∷ d) = ground (
    arith,
    same_key-true k j,
    same_key-true i k,
    same_key-true i j,
    same_key_self k,
    same_key_self j,
    find-put k j v d,
  )

pub record StrategyInput (D : Type 0) : Type 0 where
  pub payload_strategy_id : Option String
  pub values : D

pub record StrategyContext (D : Type 0) : Type 0 where
  pub market_state : D
  pub strategy_id : String
  pub input : Option (StrategyInput D)

-- The protocol `Strategy`: `T` is the objects, `S` their signals.
pub record Strategies (D S T : Type 0) : Type 1 where
  pub key : T → StrategyKey
  pub initialize : StrategyContext D → Method T (Unit {0})
  pub on_market_state : StrategyContext D → Method T (Unit {0})
  pub evaluate : StrategyContext D → Method T (List S)
  pub reset : Method T (Unit {0})

unfoldable pub validate_context : {D : Type 0} → StrategyContext D → Result (Unit {0})
validate_context context = elim context.input [
  | none ↦ ok tt
  | some given ↦ elim given.payload_strategy_id [
    | none ↦ ok tt
    | some payload ↦
        if not (payload == context.strategy_id)
        then raise value_error "strategy input payload mismatch"
        else ok tt
  ]
]

unfoldable pub register : {D S T : Type 0} → Strategies D S T → T → Method (Keyed T) (Unit {0})
register ops strategy registry =
    if not (is_none (find (ops.key strategy) registry))
    then (raise value_error "duplicate strategy", registry)
    else (ok tt, put (ops.key strategy) strategy registry)

unfoldable pub get : {T : Type 0} → StrategyKey → Keyed T → Result T
get key registry = elim (find key registry) [
  | none ↦ raise key_error "strategy not registered"
  | some strategy ↦ ok strategy
]

unfoldable pub prepare : {D T : Type 0} → StrategyKey → StrategyContext D → Keyed T → Result T
unfolding validate_context get
prepare (id, version) context registry =
    if not (context.strategy_id == id)
    then raise value_error "strategy context mismatch"
    else bind (validate_context context) (λ _. get (id, version) registry)

-- What a registry holds under each key after a registration: a key that is taken keeps its
-- strategy, and the call raises exactly then.
pub register-find :
    {D S T : Type 0} (ops : Strategies D S T) (strategy : T) (registry : Keyed T) (k : StrategyKey)
    → (find k (register ops strategy registry).1 ≡ (
        if same_key (ops.key strategy) k && is_none (find k registry)
        then some strategy
        else find k registry))
      × (is_ok (register ops strategy registry).0 ≡ is_none (find (ops.key strategy) registry))
unfolding register
register-find ops strategy registry k = (
  ground
      (arith, find-put (ops.key strategy) k strategy registry, same_key-true (ops.key strategy) k),
  ground arith,
)

-- A strategy that `prepare` gives is the one registered under the key, and the context is its own.
pub prepare_found :
    {D T : Type 0} (key : StrategyKey) (context : StrategyContext D) (registry : Keyed T)
    {strategy : T}
    → prepare key context registry ≡ ok strategy
    → (find key registry ≡ some strategy) × (context.strategy_id ≡ key.0)
unfolding prepare get
prepare_found (id, version) context registry h = elim (Result-cases (validate_context context)) [
  | inl (u, e) ↦ elim (Option-cases (find (id, version) registry)) [
    | inl e2 ↦ (
      ground (arith, eq_iff context.strategy_id id),
      ground (arith, eq_iff context.strategy_id id),
    )
    | inr (t, e2) ↦ (
      ground (arith, eq_iff context.strategy_id id),
      ground (arith, eq_iff context.strategy_id id),
    )
  ]
  | inr (x, e) ↦
      (ground (arith, eq_iff context.strategy_id id), ground (arith, eq_iff context.strategy_id id))
]
