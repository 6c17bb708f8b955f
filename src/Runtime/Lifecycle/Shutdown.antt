-- ===== src/Runtime/Lifecycle/Shutdown.antt =====
-- `LiveRuntimeLifecycleCoordinator.stop` of
-- application/composition/live_runtime_lifecycle_coordinator.py.
use kospi200_project.Base.{
  ◌≡◌, refl, sym, String, Bool, true, false, not, ◌&&◌, ◌||◌, Option, none, some, is_none,
  if◌then◌else◌, arith, Bool-cases, Option-cases, ◌⊎◌, inl, inr,
}
use kospi200_project.Base.Decimal.{Decimal, of_ℕ, ltd}
use kospi200_project.Base.Exn.{
  Exn, Result, ok, err, raise, is_ok, Method, is_cancelled, runtime_error, value_error,
  cancelled_error, Result-cases,
}
use kospi200_project.Runtime.Lifecycle.{
  LiveRuntimeLifecycleCoordinator, ShutdownPolicy, Answers, drained, timed_out, interrupted,
  called_close_execution, called_cancel_receives, called_controller_stop, logged, halted, halted_by,
  restart_admitted, assert_dependency_identity, release_transport_ownership, stop_and_release,
}

-- `getattr` with its default.
abbrev timeout_of : Option Decimal → Decimal → Decimal
timeout_of none default = default
timeout_of (some t) default = t

unfoldable pub invalid_timeouts : ShutdownPolicy → Bool
unfolding ltd
invalid_timeouts p =
    ltd (timeout_of p.graceful_shutdown_timeout_seconds (of_ℕ 10)) (of_ℕ 0)
    || ltd (timeout_of p.cancellation_drain_timeout_seconds (of_ℕ 5)) (of_ℕ 0)

-- The local variables of `stop`: at most one of the last two is set.
pub record Closing : Type 0 where
  pub close_error : Option Exn
  pub timeout_error : Option Exn
  pub shutdown_cancelled : Option Exn

abbrev pub closed : Option Exn → Closing
closed e = record { close_error = e; timeout_error = none; shutdown_cancelled = none }

abbrev pub late : Option Exn → String → Closing
late e m = record {
  close_error = e;
  timeout_error = some (record { class = runtime_error; message = m });
  shutdown_cancelled = none;
}

abbrev pub cut : Option Exn → Exn → Closing
cut e x = record { close_error = e; timeout_error = none; shutdown_cancelled = some x }

abbrev interruption : Exn
interruption = record { class = cancelled_error; message = "" }

-- The three `raise`s at the end.
unfoldable pub raised_by : Closing → Result (Unit {0})
raised_by c = elim c.shutdown_cancelled [
  | some x ↦ err x
  | none ↦ elim c.timeout_error [
    | some x ↦ err x
    | none ↦ elim c.close_error [ some x ↦ err x | none ↦ ok tt ]
  ]
]

module _ {R : Type 0} where
  -- The cancellation of the receives and the second wait, after the first one timed out.
  unfoldable pub cancel_and_wait :
      Option Exn
      → Answers R
      → LiveRuntimeLifecycleCoordinator
      → Closing × LiveRuntimeLifecycleCoordinator
  cancel_and_wait e a s =
      let s' = logged (called_cancel_receives (is_ok a.cancel_receives)) s in
      elim a.cancel_receives [
        | err x ↦ (
          if is_cancelled x then cut e x else late e "LIVE_RUNTIME_SHUTDOWN_CANCELLATION_FAILED",
          s',
        )
        | ok _ ↦ elim a.wait_cancelled [
          | drained ↦ (closed e, s')
          | interrupted ↦ (cut e interruption, s')
          | timed_out ↦ (late e "LIVE_RUNTIME_SHUTDOWN_DRAIN_TIMEOUT", s')
        ]
      ]

  unfoldable pub drain :
      Option Exn
      → Answers R
      → LiveRuntimeLifecycleCoordinator
      → Closing × LiveRuntimeLifecycleCoordinator
  unfolding cancel_and_wait
  drain e a s = elim a.wait_graceful [
    | drained ↦ (closed e, s)
    | interrupted ↦ (cut e interruption, s)
    | timed_out ↦ cancel_and_wait e a s
  ]

  -- The body of the `try`: the execution is closed, then the receives are drained.
  unfoldable pub shut_down :
      Answers R → LiveRuntimeLifecycleCoordinator → Closing × LiveRuntimeLifecycleCoordinator
  unfolding drain
  shut_down a s =
      let s' = logged (called_close_execution (is_ok a.close_execution)) s in
      elim a.close_execution [
        | err x ↦ if is_cancelled x then (cut none x, s') else drain (some x) a s'
        | ok _ ↦ drain none a s'
      ]

  -- The last part of the `finally`, after the controller stopped.
  unfoldable pub release_or_halt :
      Option Exn → Answers R → Method LiveRuntimeLifecycleCoordinator (Unit {0})
  unfolding release_transport_ownership
  release_or_halt (some e) a s =
      (ok tt, record s { stopping = true; technical_state = some "STOP_EXECUTION_CLOSE_FAILED" })
  release_or_halt none a s =
      let (r, s') = release_transport_ownership a.release s in
      elim r [
        | ok _ ↦ (ok tt, record s' { stopping = false; technical_state = none })
        | err x ↦ (err x, halted_by "TRANSPORT_OWNERSHIP_RELEASE_FAILED" x s')
      ]

  -- The `finally`.
  unfoldable pub finish : Closing → Answers R → Method LiveRuntimeLifecycleCoordinator (Unit {0})
  unfolding release_or_halt halted_by
  finish c a s =
      if not (is_none c.shutdown_cancelled)
      then (ok tt, halted "STOP_SHUTDOWN_CANCELLED" s)
      else if not (is_none c.timeout_error)
      then (ok tt, halted "STOP_TIMEOUT" s)
      else elim a.controller_stop [
        | err x ↦ (
          err x,
          halted_by "STOP_CONTROLLER_FAILED" x
              (logged (called_controller_stop false) (record s { started = false })),
        )
        | ok _ ↦
            release_or_halt c.close_error a
              (logged (called_controller_stop true) (record s { started = false }))
      ]

  unfoldable pub stop_started : Answers R → Method LiveRuntimeLifecycleCoordinator (Unit {0})
  unfolding shut_down finish raised_by
  stop_started a s =
      let (c, s1) = shut_down a (record s { stopping = true }) in
      let (r, s2) = finish c a s1 in elim r [ err x ↦ (err x, s2) | ok _ ↦ (raised_by c, s2) ]

  unfoldable pub stop : Answers R → Method LiveRuntimeLifecycleCoordinator (Unit {0})
  unfolding assert_dependency_identity stop_and_release stop_started invalid_timeouts
  stop a s = elim (assert_dependency_identity s) [
    | err e ↦ (err e, s)
    | ok _ ↦
        if not s.started
        then (if not (is_none s.technical_state)
            then (raise runtime_error "LIVE_RUNTIME_RESTART_NOT_ADMITTED", s)
            else stop_and_release a s)
        else if invalid_timeouts s.policy
        then (raise value_error "LIVE_RUNTIME_INVALID_SHUTDOWN_TIMEOUT", s)
        else stop_started a s
  ]

release_or_halt-restart_admitted :
    {R : Type 0} (c : Option Exn) (a : Answers R) (s : LiveRuntimeLifecycleCoordinator)
    → s.started ≡ false
    → s.stopping ≡ true
    → (is_ok (release_or_halt c a s).0 && is_none c) ≡ restart_admitted (release_or_halt c a s).1
unfolding release_or_halt halted_by restart_admitted release_transport_ownership
release_or_halt-restart_admitted none a s off on = ground arith
release_or_halt-restart_admitted (some x) a s off on = ground arith

finish-restart_admitted :
    {R : Type 0} (c : Closing) (a : Answers R) (s : LiveRuntimeLifecycleCoordinator)
    → s.stopping ≡ true
    → (is_ok (finish c a s).0 && is_ok (raised_by c)) ≡ restart_admitted (finish c a s).1
unfolding finish raised_by restart_admitted halted_by
finish-restart_admitted c a s on =
    let s' = logged (called_controller_stop true) (record s { started = false }) in
    elim (Option-cases c.shutdown_cancelled) [
      | inl e ↦ elim (Option-cases c.timeout_error) [
        | inl e2 ↦ elim (Result-cases a.controller_stop) [
          | inl (u, r) ↦ ground (arith, release_or_halt-restart_admitted c.close_error a s' refl on)
          | inr (x, r) ↦ ground arith
        ]
        | inr (x, e2) ↦ ground arith
      ]
      | inr (x, e) ↦ ground arith
    ]

-- The closing and the waits only add to the calls.
pub shut_down-stopping :
    {R : Type 0} (a : Answers R) (s : LiveRuntimeLifecycleCoordinator)
    → (shut_down a s).1.stopping ≡ s.stopping
unfolding shut_down drain cancel_and_wait
shut_down-stopping a s = ground arith

stop_started-restart_admitted :
    {R : Type 0} (a : Answers R) (s : LiveRuntimeLifecycleCoordinator)
    → is_ok (stop_started a s).0 ≡ restart_admitted (stop_started a s).1
unfolding stop_started
stop_started-restart_admitted a s =
    let opened = record s { stopping = true } in
    let same =
      finish-restart_admitted (shut_down a opened).0 a (shut_down a opened).1
        (shut_down-stopping a opened) in
    elim (Result-cases (finish (shut_down a opened).0 a (shut_down a opened).1).0) [
      | inl (u, e) ↦ ground (arith, same)
      | inr (x, e) ↦ ground (arith, same)
    ]

started_not_admitted :
    (s : LiveRuntimeLifecycleCoordinator) → s.started ≡ true → restart_admitted s ≡ false
unfolding restart_admitted
started_not_admitted s on = rw on

abbrev bad_timeout : Exn
bad_timeout = record { class = value_error; message = "LIVE_RUNTIME_INVALID_SHUTDOWN_TIMEOUT" }

-- What `stop` does with a started coordinator.
pub stop_cases :
    {R : Type 0} (a : Answers R) (s : LiveRuntimeLifecycleCoordinator)
    → s.started ≡ true
    → (stop a s ≡ stop_started a s) ⊎ ((x : Exn) × (stop a s ≡ (err x, s)))
unfolding stop
stop_cases a s on = elim (Result-cases (assert_dependency_identity s)) [
  | inl (u, e) ↦ elim (Bool-cases (invalid_timeouts s.policy)) [
    | inl negative ↦ inr (bad_timeout, ground arith)
    | inr valid ↦ inl (ground arith)
  ]
  | inr (x, e) ↦ inr (x, ground arith)
]

-- `stop` of a started coordinator returns exactly when it leaves one that may start again.
pub stop-restart_admitted :
    {R : Type 0} (a : Answers R) (s : LiveRuntimeLifecycleCoordinator)
    → s.started ≡ true
    → is_ok (stop a s).0 ≡ restart_admitted (stop a s).1
stop-restart_admitted a s on = elim (stop_cases a s on) [
  | inl same ↦ rw same (stop_started-restart_admitted a s)
  | inr (x, kept) ↦ rw kept (sym (started_not_admitted s on))
]
