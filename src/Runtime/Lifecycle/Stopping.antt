-- ===== src/Runtime/Lifecycle/Stopping.antt =====
-- `stop` of application/composition/live_runtime_lifecycle_coordinator.py
-- keeps the invariant, on every path.
use kospi200_project.Base.{
  ◌≡◌, refl, sym, subst, ◌∙◌, true, false, Option, none, some, is_none, arith, ◌⊎◌, inl, inr,
  Bool-cases, Option-cases,
}
use kospi200_project.Base.Exn.{Exn, Result, is_ok, is_cancelled, Result-cases}
use kospi200_project.Runtime.Lifecycle.{
  LiveRuntimeLifecycleCoordinator, Answers, Call, called_close_execution, called_cancel_receives,
  called_controller_stop, logged, Waited, drained, timed_out, interrupted,
  assert_dependency_identity, release_transport_ownership,
}
use kospi200_project.Runtime.Lifecycle.Shutdown.{
  Closing, cancel_and_wait, drain, shut_down, release_or_halt, finish, stop_started, stop,
  stop_cases, shut_down-stopping,
}
use kospi200_project.Runtime.Lifecycle.Sound.{
  Sound, plain, stops_controller, release-Sound, halted_by-Sound, logged-Sound, halted-Sound,
}
use kospi200_project.Runtime.Lifecycle.Starting.{stop_and_release-Sound}

Waited-cases : (w : Waited) → (w ≡ timed_out) ⊎ ((w ≡ drained) ⊎ (w ≡ interrupted))
Waited-cases drained = inr (inl refl)
Waited-cases timed_out = inl refl
Waited-cases interrupted = inr (inr refl)

-- The state during `stop`: sound once the two flags are as its `finally` leaves them at first.
record AtRest (s : LiveRuntimeLifecycleCoordinator) : Type 0 where
  at_rest : Sound (record s { started = false; stopping = true })

Sound-AtRest : (s : LiveRuntimeLifecycleCoordinator) → Sound s → AtRest s
Sound-AtRest s h = record {
  at_rest = record {
    calls_ordered = h.calls_ordered;
    released_once = h.released_once;
    halted_when_technical = inr (refl, refl);
    idle_when_stopping = refl;
    drained_when_idle = h.drained_when_idle;
  };
}

logged-AtRest :
    (c : Call) (s : LiveRuntimeLifecycleCoordinator)
    → plain c ≡ true
    → AtRest s
    → AtRest (logged c s)
logged-AtRest c s free h = record {
  at_rest = logged-Sound c (record s { started = false; stopping = true }) free h.at_rest;
}

release_keeps_started :
    (r : Result (Unit {0})) (s : LiveRuntimeLifecycleCoordinator)
    → (release_transport_ownership r s).1.started ≡ s.started
unfolding release_transport_ownership
release_keeps_started r s = ground arith

freed-Sound :
    (s : LiveRuntimeLifecycleCoordinator)
    → s.started ≡ false
    → Sound s
    → Sound (record s { stopping = false; technical_state = none })
freed-Sound s off h = record {
  calls_ordered = h.calls_ordered;
  released_once = h.released_once;
  halted_when_technical = inl refl;
  idle_when_stopping = rw off refl;
  drained_when_idle = h.drained_when_idle;
}

module _ {R : Type 0} where
  cancel_and_wait-AtRest :
      (e : Option Exn) (a : Answers R) (s : LiveRuntimeLifecycleCoordinator)
      → AtRest s
      → AtRest (cancel_and_wait e a s).1
  unfolding cancel_and_wait plain
  cancel_and_wait-AtRest e a s h =
      let c = called_cancel_receives (is_ok a.cancel_receives) in
      subst AtRest (sym (ground arith)) (logged-AtRest c s refl h)

  drain-AtRest :
      (e : Option Exn) (a : Answers R) (s : LiveRuntimeLifecycleCoordinator)
      → AtRest s
      → AtRest (drain e a s).1
  unfolding drain
  drain-AtRest e a s h = elim (Waited-cases a.wait_graceful) [
    | inl late ↦ subst AtRest (sym (ground (arith, late))) (cancel_and_wait-AtRest e a s h)
    | inr early ↦ subst AtRest (sym (ground (arith, early))) h
  ]

  shut_down-AtRest :
      (a : Answers R) (s : LiveRuntimeLifecycleCoordinator) → AtRest s → AtRest (shut_down a s).1
  unfolding shut_down plain
  shut_down-AtRest a s h =
      let c = called_close_execution (is_ok a.close_execution) in
      let s' = logged c s in
      let h' = logged-AtRest c s refl h in
      elim (Result-cases a.close_execution) [
        | inl (u, e) ↦ subst AtRest (sym (ground (arith, e))) (drain-AtRest none a s' h')
        | inr (x, e) ↦ elim (Bool-cases (is_cancelled x)) [
          | inl cut ↦ subst AtRest (sym (ground (arith, e, cut))) h'
          | inr other ↦
              subst AtRest (sym (ground (arith, e, other))) (drain-AtRest (some x) a s' h')
        ]
      ]

  release_or_halt-Sound :
      (e : Option Exn) (a : Answers R) (s : LiveRuntimeLifecycleCoordinator)
      → s.started ≡ false
      → stops_controller s.calls ≡ true
      → Sound s
      → Sound (release_or_halt e a s).1
  unfolding release_or_halt
  release_or_halt-Sound (some x) a s off after h = record {
    calls_ordered = h.calls_ordered;
    released_once = h.released_once;
    halted_when_technical = inr (off, refl);
    idle_when_stopping = rw off refl;
    drained_when_idle = h.drained_when_idle;
  }
  release_or_halt-Sound none a s off after h =
      let s' = (release_transport_ownership a.release s).1 in
      let h' = release-Sound a.release s after h in
      elim (Result-cases (release_transport_ownership a.release s).0) [
        | inl (v, r) ↦
            subst Sound (sym (ground (arith, r)))
              (freed-Sound s' (release_keeps_started a.release s ∙ off) h')
        | inr (x, r) ↦
            subst Sound (sym (ground (arith, r)))
              (halted_by-Sound "TRANSPORT_OWNERSHIP_RELEASE_FAILED" x s' h')
      ]

  finish-Sound :
      (c : Closing) (a : Answers R) (s : LiveRuntimeLifecycleCoordinator)
      → s.stopping ≡ true
      → AtRest s
      → Sound (finish c a s).1
  unfolding finish plain
  finish-Sound c a s on h =
      let off = record s { started = false } in
      let h' : Sound off = subst Sound (ground (arith, on)) h.at_rest in
      elim (Option-cases c.shutdown_cancelled) [
        | inr (x, e) ↦
            subst Sound (sym (ground (arith, e))) (halted-Sound "STOP_SHUTDOWN_CANCELLED" off h')
        | inl e ↦ elim (Option-cases c.timeout_error) [
          | inr (x, e2) ↦
              subst Sound (sym (ground (arith, e, e2))) (halted-Sound "STOP_TIMEOUT" off h')
          | inl e2 ↦ elim (Result-cases a.controller_stop) [
            | inl (u, r) ↦ subst Sound (sym (ground (arith, e, e2, r))) (
                release_or_halt-Sound c.close_error a (logged (called_controller_stop true) off)
                  refl refl (logged-Sound (called_controller_stop true) off refl h'))
            | inr (x, r) ↦ subst Sound (sym (ground (arith, e, e2, r))) (
                halted_by-Sound "STOP_CONTROLLER_FAILED" x
                  (logged (called_controller_stop false) off)
                  (logged-Sound (called_controller_stop false) off refl h'))
          ]
        ]
      ]

  stop_started-Sound :
      (a : Answers R) (s : LiveRuntimeLifecycleCoordinator) → Sound s → Sound (stop_started a s).1
  unfolding stop_started
  stop_started-Sound a s h =
      let opened = record s { stopping = true } in
      let rests = shut_down-AtRest a opened (record { at_rest = (Sound-AtRest s h).at_rest }) in
      let sound =
        finish-Sound (shut_down a opened).0 a (shut_down a opened).1 (shut_down-stopping a opened)
          rests in
      elim (Result-cases (finish (shut_down a opened).0 a (shut_down a opened).1).0) [
        | inl (u, e) ↦ subst Sound (sym (ground (arith, e))) sound
        | inr (x, e) ↦ subst Sound (sym (ground (arith, e))) sound
      ]

  pub stop-Sound :
      (a : Answers R) (s : LiveRuntimeLifecycleCoordinator) → Sound s → Sound (stop a s).1
  unfolding stop
  stop-Sound a s h = elim (Bool-cases s.started) [
    | inl on ↦ elim (stop_cases a s on) [
      | inl same ↦ rw same (stop_started-Sound a s h)
      | inr (x, kept) ↦ rw kept h
    ]
    | inr off ↦ elim (Result-cases (assert_dependency_identity s)) [
      | inl (u, e) ↦ elim (Bool-cases (is_none s.technical_state)) [
        | inl free ↦ subst Sound (sym (ground (arith, e, off, free))) (stop_and_release-Sound a s h)
        | inr refused ↦ subst Sound (sym (ground (arith, e, off, refused))) h
      ]
      | inr (x, e) ↦ subst Sound (sym (ground (arith, e))) h
    ]
  ]
