-- ===== src/Runtime/Lifecycle.antt =====
-- application/composition/live_runtime_lifecycle_coordinator.py: the coordinator that starts and
-- stops the live runtime. What its collaborators answer is an argument of each call; the calls made
-- to them are recorded, latest first. Two overlapping calls of `start` or `stop` are left out.
pub mod Shutdown
pub mod Sound
mod Starting
mod Stopping
pub mod Reach
pub mod Restart
use kospi200_project.Base.{
  ℕ, ◌+◌, ◌-◌, ◌≡◌, String, Bool, true, false, not, ◌&&◌, ◌||◌, Option, none, some, is_none, List,
  [], ◌∷◌, if◌then◌else◌, eqb,
}
use kospi200_project.Base.Decimal.{Decimal}
use kospi200_project.Base.Exn.{
  Exn, Result, ok, err, raise, is_ok, Method, is_cancelled, runtime_error, value_error,
  timeout_error, cancelled_error,
}

-- The attributes of the policy that `stop` reads; `none` is one that the policy lacks.
pub record ShutdownPolicy : Type 0 where
  pub graceful_shutdown_timeout_seconds : Option Decimal
  pub cancellation_drain_timeout_seconds : Option Decimal

-- The calls to the collaborators, with whether they returned.
pub data Call : Type 0 where
  called_controller_start called_startup_reconcile called_start_execution : Bool → Call
  called_close_execution called_cancel_receives called_controller_stop called_release : Bool → Call

pub record LiveRuntimeLifecycleCoordinator : Type 0 where
  pub controller : ℕ
  pub bootstrap : ℕ
  pub controller_identity : ℕ
  pub bootstrap_identity : ℕ
  pub release_execution_transport_ownership : Bool
  pub started : Bool
  pub stopping : Bool
  pub active_receives : ℕ
  pub receives_drained : Bool
  pub policy : ShutdownPolicy
  pub technical_state : Option String
  pub calls : List Call

-- A coordinator over two objects, by their identities; the callback is given or not.
abbrev pub new_coordinator : ℕ → ℕ → Bool → LiveRuntimeLifecycleCoordinator
new_coordinator controller bootstrap callback = record {
  controller = controller;
  bootstrap = bootstrap;
  controller_identity = controller;
  bootstrap_identity = bootstrap;
  release_execution_transport_ownership = callback;
  started = false;
  stopping = false;
  active_receives = 0;
  receives_drained = true;
  policy = record {
    graceful_shutdown_timeout_seconds = none;
    cancellation_drain_timeout_seconds = none;
  };
  technical_state = none;
  calls = [];
}

-- `asyncio.wait_for` on the event of the drained receives.
pub data Waited : Type 0 where
  drained timed_out interrupted : Waited

-- What the collaborators answer during one call of `start` or `stop`.
pub record Answers (R : Type 0) : Type 0 where
  pub controller_start : Result (Unit {0})
  pub startup_reconcile : Result R
  pub start_execution : Result (Unit {0})
  pub close_execution : Result (Unit {0})
  pub wait_graceful : Waited
  pub cancel_receives : Result (Unit {0})
  pub wait_cancelled : Waited
  pub controller_stop : Result (Unit {0})
  pub release : Result (Unit {0})

abbrev pub logged : Call → LiveRuntimeLifecycleCoordinator → LiveRuntimeLifecycleCoordinator
logged c s = record s { calls = c ∷ s.calls }

unfoldable pub assert_dependency_identity : LiveRuntimeLifecycleCoordinator → Result (Unit {0})
assert_dependency_identity s =
    if not (eqb s.controller s.controller_identity)
    then raise runtime_error "LIVE_RUNTIME_CONTROLLER_IDENTITY_CHANGED"
    else if not (eqb s.bootstrap s.bootstrap_identity)
    then raise runtime_error "LIVE_RUNTIME_BOOTSTRAP_IDENTITY_CHANGED"
    else ok tt

unfoldable pub restart_admitted : LiveRuntimeLifecycleCoordinator → Bool
restart_admitted s = not s.started && not s.stopping && is_none s.technical_state

-- The three assignments of every path that ends in a technical state.
abbrev pub halted : String → LiveRuntimeLifecycleCoordinator → LiveRuntimeLifecycleCoordinator
halted t s = record s { started = false; stopping = true; technical_state = some t }

unfoldable pub release_transport_ownership :
    Result (Unit {0}) → Method LiveRuntimeLifecycleCoordinator (Unit {0})
release_transport_ownership answer s =
    if s.release_execution_transport_ownership
    then elim answer [
      | ok _ ↦ (
        ok tt,
        record s {
          release_execution_transport_ownership = false;
          calls = called_release true ∷ s.calls;
        },
      )
      | err e ↦ (err e, logged (called_release false) s)
    ]
    else (ok tt, s)

-- `except Exception`: a cancellation passes without the assignments.
unfoldable pub halted_by :
    String → Exn → LiveRuntimeLifecycleCoordinator → LiveRuntimeLifecycleCoordinator
halted_by t e s = if is_cancelled e then s else halted t s

module _ {R : Type 0} where
  -- The controller's stop and the release, as `start` after a failure and `stop` when nothing was
  -- started do them.
  unfoldable pub stop_and_release : Answers R → Method LiveRuntimeLifecycleCoordinator (Unit {0})
  unfolding release_transport_ownership halted_by
  stop_and_release a s = elim a.controller_stop [
    | err e ↦
        (err e, halted_by "STOP_CONTROLLER_FAILED" e (logged (called_controller_stop false) s))
    | ok _ ↦
        let (r, s') =
          release_transport_ownership a.release (logged (called_controller_stop true) s) in
        elim r [
          | err e ↦ (err e, halted_by "TRANSPORT_OWNERSHIP_RELEASE_FAILED" e s')
          | ok _ ↦ (ok tt, s')
        ]
  ]

  -- `raise` at the end of a handler, unless the cleaning up raised.
  abbrev pub reraised : Exn → Result (Unit {0}) → Result R
  reraised e (ok _) = err e
  reraised e (err x) = err x

  -- The two handlers of `start`, which are the same code; `e` is raised again in the end.
  unfoldable pub clean_up : Bool → Exn → Answers R → Method LiveRuntimeLifecycleCoordinator R
  unfolding stop_and_release
  clean_up attempted e a s =
      let closed = if attempted then a.close_execution else ok tt in
      let s' = if attempted then logged (called_close_execution (is_ok closed)) s else s in
      let again = reraised e (stop_and_release a s').0 in
      elim closed [
        | ok _ ↦ (again, (stop_and_release a s').1)
        | err x ↦
            if is_cancelled x
            then (err x, halted "STARTUP_CLEANUP_CANCELLED" s')
            else (again, (stop_and_release a s').1)
      ]

  unfoldable pub start : ShutdownPolicy → Answers R → Method LiveRuntimeLifecycleCoordinator R
  unfolding assert_dependency_identity restart_admitted clean_up
  start policy a s = elim (assert_dependency_identity s) [
    | err e ↦ (err e, s)
    | ok _ ↦
        if not (restart_admitted s)
        then (raise runtime_error "LIVE_RUNTIME_RESTART_NOT_ADMITTED", s)
        else elim a.controller_start [
          | err e ↦ clean_up false e a (logged (called_controller_start false) s)
          | ok _ ↦
              let s1 = logged (called_controller_start true) s in
              elim a.startup_reconcile [
                | err e ↦ clean_up false e a (logged (called_startup_reconcile false) s1)
                | ok recovered ↦
                    let s2 = logged (called_startup_reconcile true) s1 in
                    elim a.start_execution [
                      | err e ↦ clean_up true e a (logged (called_start_execution false) s2)
                      | ok _ ↦ (
                        ok recovered,
                        record s2 {
                          started = true;
                          stopping = false;
                          policy = policy;
                          technical_state = none;
                          calls = called_start_execution true ∷ s2.calls;
                        },
                      )
                    ]
              ]
        ]
  ]

-- `receive_execution_once` up to its call of the transport, and from there on.
unfoldable pub begin_receive : Method LiveRuntimeLifecycleCoordinator (Unit {0})
unfolding assert_dependency_identity
begin_receive s = elim (assert_dependency_identity s) [
  | err e ↦ (err e, s)
  | ok _ ↦
      if not s.started || s.stopping
      then (raise runtime_error "LIVE_RUNTIME_NOT_STARTED", s)
      else (ok tt, record s { active_receives = s.active_receives + 1; receives_drained = false })
]

-- The `finally` of `receive_execution_once`, which runs once for each receive that began.
unfoldable pub end_receive : LiveRuntimeLifecycleCoordinator → LiveRuntimeLifecycleCoordinator
end_receive s = record s {
  active_receives = s.active_receives - 1;
  receives_drained = s.receives_drained || eqb (s.active_receives - 1) 0;
}
