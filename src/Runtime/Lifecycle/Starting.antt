-- ===== src/Runtime/Lifecycle/Starting.antt =====
-- `start` of application/composition/live_runtime_lifecycle_coordinator.py
-- keeps the invariant, on every path.
use kospi200_project.Base.{refl, sym, subst, Bool, true, false, arith, inl, inr, Bool-cases}
use kospi200_project.Base.Exn.{Exn, is_ok, is_cancelled, Result-cases}
use kospi200_project.Runtime.Lifecycle.{
  LiveRuntimeLifecycleCoordinator, ShutdownPolicy, Answers, called_controller_start,
  called_startup_reconcile, called_start_execution, called_close_execution, called_controller_stop,
  logged, restart_admitted, assert_dependency_identity, release_transport_ownership,
  stop_and_release, clean_up, start,
}
use kospi200_project.Runtime.Lifecycle.Sound.{
  Sound, plain, release-Sound, halted_by-Sound, logged-Sound, halted-Sound, next-Sound,
  started-Sound,
}

module _ {R : Type 0} where
  pub stop_and_release-Sound :
      (a : Answers R) (s : LiveRuntimeLifecycleCoordinator)
      → Sound s
      → Sound (stop_and_release a s).1
  unfolding stop_and_release plain
  stop_and_release-Sound a s h = elim (Result-cases a.controller_stop) [
    | inl (u, e) ↦
        let s' = logged (called_controller_stop true) s in
        let h' =
          release-Sound a.release s' refl (logged-Sound (called_controller_stop true) s refl h) in
        elim (Result-cases (release_transport_ownership a.release s').0) [
          | inl (v, r) ↦ subst Sound (sym (ground (arith, e, r))) h'
          | inr (x, r) ↦ subst Sound (sym (ground (arith, e, r))) (
              halted_by-Sound "TRANSPORT_OWNERSHIP_RELEASE_FAILED" x
                (release_transport_ownership a.release s').1 h')
        ]
    | inr (x, e) ↦ rw e (
        halted_by-Sound "STOP_CONTROLLER_FAILED" x (logged (called_controller_stop false) s)
          (logged-Sound (called_controller_stop false) s refl h))
  ]

  clean_up-Sound :
      (attempted : Bool) (e : Exn) (a : Answers R) (s : LiveRuntimeLifecycleCoordinator)
      → Sound s
      → Sound (clean_up attempted e a s).1
  unfolding clean_up plain
  clean_up-Sound false e a s h = stop_and_release-Sound a s h
  clean_up-Sound true e a s h =
      let s' = logged (called_close_execution (is_ok a.close_execution)) s in
      let h' = logged-Sound (called_close_execution (is_ok a.close_execution)) s refl h in
      elim (Result-cases a.close_execution) [
        | inl (u, r) ↦ subst Sound (sym (ground (arith, r))) (stop_and_release-Sound a s' h')
        | inr (x, r) ↦ elim (Bool-cases (is_cancelled x)) [
          | inl cut ↦
              subst Sound (sym (ground (arith, r, cut)))
                (halted-Sound "STARTUP_CLEANUP_CANCELLED" s' h')
          | inr other ↦
              subst Sound (sym (ground (arith, r, other))) (stop_and_release-Sound a s' h')
        ]
      ]

  pub start-Sound :
      (p : ShutdownPolicy) (a : Answers R) (s : LiveRuntimeLifecycleCoordinator)
      → Sound s
      → Sound (start p a s).1
  unfolding start
  start-Sound p a s h = elim (Result-cases (assert_dependency_identity s)) [
    | inr (x, e) ↦ subst Sound (sym (ground (arith, e))) h
    | inl (u, e) ↦ elim (Bool-cases (restart_admitted s)) [
      | inr refused ↦ subst Sound (sym (ground (arith, e, refused))) h
      | inl free ↦
          let s1 = logged (called_controller_start true) s in
          let h1 = next-Sound (called_controller_start true) s refl refl h in
          let s2 = logged (called_startup_reconcile true) s1 in
          let h2 = next-Sound (called_startup_reconcile true) s1 refl refl h1 in
          elim (Result-cases a.controller_start) [
            | inr (x, r) ↦ subst Sound (sym (ground (arith, e, free, r))) (
                clean_up-Sound false x a (logged (called_controller_start false) s)
                  (next-Sound (called_controller_start false) s refl refl h))
            | inl (v, r) ↦ elim (Result-cases a.startup_reconcile) [
              | inr (x, r2) ↦ subst Sound (sym (ground (arith, e, free, r, r2))) (
                  clean_up-Sound false x a (logged (called_startup_reconcile false) s1)
                    (next-Sound (called_startup_reconcile false) s1 refl refl h1))
              | inl (w, r2) ↦ elim (Result-cases a.start_execution) [
                | inr (x, r3) ↦ subst Sound (sym (ground (arith, e, free, r, r2, r3))) (
                    clean_up-Sound true x a (logged (called_start_execution false) s2)
                      (next-Sound (called_start_execution false) s2 refl refl h2))
                | inl (y, r3) ↦ subst Sound (sym (ground (arith, e, free, r, r2, r3))) (
                    started-Sound p (logged (called_start_execution true) s2)
                      (next-Sound (called_start_execution true) s2 refl refl h2))
              ]
            ]
          ]
    ]
  ]
