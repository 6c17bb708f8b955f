-- ===== src/Runtime/Environment.antt =====
-- application/environment_hub/{factory, hub}.py and application/runtime_controller/controller.py:
-- the choice of the environment and the controller over it. `bundle.initialize`, `connect`, `start`,
-- `stop` and `shutdown` are commented out in the controller, so a bundle is only held. A bundle is
-- given by the name of its environment, which is all that the controller reads of it.
use kospi200_project.Base.{
  ◌≡◌, refl, ap, String, Option, none, some, is_none, List, [], ◌∷◌, if◌then◌else◌, arith, inl, inr,
}
use kospi200_project.Base.Text.{◌==◌}
use kospi200_project.Base.Exn.{
  Result, ok, err, raise, Method, runtime_error, type_error, Result-cases,
}

pub record EnvironmentConfig : Type 0 where
  pub environment : String
  pub name : String

abbrev pub factory_raises {ℓ} : {A : Type ℓ} → Result A
factory_raises =
    raise type_error "EnvironmentFactory.create() takes 0 positional arguments but 3 were given"

-- `EnvironmentFactory.create`: its parameters are commented out, so every call with arguments fails
-- before the body.
unfoldable pub factory_create : EnvironmentConfig → Result String
factory_create config = factory_raises

pub record EnvironmentHub : Type 0 where
  pub active : Option String

unfoldable pub create :
    (EnvironmentConfig → Result String) → EnvironmentConfig → EnvironmentHub → Result String
create factory config hub =
    if is_none hub.active
    then factory config
    else raise runtime_error "an environment is already active"

unfoldable pub activate : String → Method EnvironmentHub (Unit {0})
activate bundle hub =
    if is_none hub.active
    then (ok tt, record { active = some bundle })
    else (raise runtime_error "cannot activate a second environment", hub)

unfoldable pub deactivate : EnvironmentHub → EnvironmentHub
deactivate hub = record { active = none }

pub record RuntimeController : Type 0 where
  pub hub : EnvironmentHub
  pub state : String

abbrev pub new_controller : RuntimeController
new_controller = record { hub = record { active = none }; state = "STOPPED" }

pub record RuntimeStatus : Type 0 where
  pub environment : Option String
  pub state : String

-- `RuntimeController.start`, over a hub with the given factory.
unfoldable pub start :
    (EnvironmentConfig → Result String) → EnvironmentConfig → Method RuntimeController (Unit {0})
unfolding create activate
start factory config c =
    if c.state == "RUNNING"
    then (raise runtime_error "runtime is already running", c)
    else elim (create factory config c.hub) [
      | err e ↦ (err e, c)
      | ok bundle ↦
          let (r, hub) = activate bundle c.hub in
          elim r [
            | err e ↦ (err e, record c { hub = hub })
            | ok _ ↦ (ok tt, record { hub = hub; state = "RUNNING" })
          ]
    ]

unfoldable pub stop : RuntimeController → RuntimeController
unfolding deactivate
stop c =
    if is_none c.hub.active
    then record c { state = "STOPPED" }
    else record c { hub = deactivate c.hub; state = "STOPPED" }

unfoldable pub status : RuntimeController → RuntimeStatus
status c = record { environment = c.hub.active; state = c.state }

-- A call of the controller from outside.
pub data Call : Type 0 where
  starts : EnvironmentConfig → Call
  stops : Call

-- The results of some calls in order, and the controller after them.
unfoldable pub run :
    (EnvironmentConfig → Result String)
    → List Call
    → RuntimeController
    → List (Result (Unit {0})) × RuntimeController
unfolding start stop
run factory [] c = ([], c)
run factory (starts config ∷ calls) c =
    let (r, d) = start factory config c in let (rs, last) = run factory calls d in (r ∷ rs, last)
run factory (stops ∷ calls) c = let (rs, last) = run factory calls (stop c) in (ok tt ∷ rs, last)

-- What a controller promises: it runs no environment or one. A start builds one only from none, and a
-- stop leaves none.
abbrev promised_start :
    (EnvironmentConfig → Result String) → EnvironmentConfig → Method (Option String) (Unit {0})
promised_start factory config (some e) = (raise runtime_error "runtime is already running", some e)
promised_start factory config none = elim (factory config) [
  | ok e ↦ (ok tt, some e)
  | err x ↦ (err x, none)
]

unfoldable pub promised_run :
    (EnvironmentConfig → Result String)
    → List Call
    → Option String
    → List (Result (Unit {0})) × Option String
promised_run factory [] a = ([], a)
promised_run factory (starts config ∷ calls) a =
    let (r, b) = promised_start factory config a in
    let (rs, last) = promised_run factory calls b in (r ∷ rs, last)
promised_run factory (stops ∷ calls) a =
    let (rs, last) = promised_run factory calls none in (ok tt ∷ rs, last)

-- The status while no environment runs, or one does.
abbrev pub promised_status : Option String → RuntimeStatus
promised_status none = record { environment = none; state = "STOPPED" }
promised_status (some e) = record { environment = some e; state = "RUNNING" }

-- The controller that runs what it is promised to run.
abbrev holding : Option String → RuntimeController
holding none = new_controller
holding (some e) = record { hub = record { active = some e }; state = "RUNNING" }

start-holding :
    (factory : EnvironmentConfig → Result String) (config : EnvironmentConfig) (a : Option String)
    → let (r, b) = promised_start factory config a in
      start factory config (holding a) ≡ (r, holding b)
unfolding start
start-holding factory config (some e) = refl
start-holding factory config none = elim (Result-cases (factory config)) [
  | inl (b, e) ↦ ground arith
  | inr (x, e) ↦ ground arith
]

stop-holding : (a : Option String) → stop (holding a) ≡ new_controller
unfolding stop
stop-holding none = refl
stop-holding (some e) = refl

run-holding :
    (factory : EnvironmentConfig → Result String) (calls : List Call) (a : Option String)
    → let (rs, b) = promised_run factory calls a in run factory calls (holding a) ≡ (rs, holding b)
unfolding run promised_run
run-holding factory [] a = refl
run-holding factory (starts config ∷ calls) a =
    let (r, b) = promised_start factory config a in
    rw (start-holding factory config a, run-holding factory calls b) refl
run-holding factory (stops ∷ calls) a = rw (stop-holding a, run-holding factory calls none) refl

status-holding : (a : Option String) → status (holding a) ≡ promised_status a
unfolding status
status-holding none = refl
status-holding (some e) = refl

-- Whatever the factory builds or raises, a new controller answers every sequence of starts and stops
-- as the promise does, and its status is the promised one: a start raises while an environment runs,
-- and otherwise runs what the factory builds or raises what it raises; after a stop none runs.
pub run_refines :
    (factory : EnvironmentConfig → Result String) (calls : List Call)
    → ((run factory calls new_controller).0 ≡ (promised_run factory calls none).0)
      × (status (run factory calls new_controller).1
          ≡ promised_status (promised_run factory calls none).1)
unfolding status
run_refines factory calls =
    let same = run-holding factory calls none in
    (ap (λ x. x.0) same, rw same (status-holding (promised_run factory calls none).1))
