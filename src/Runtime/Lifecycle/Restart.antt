-- ===== src/Runtime/Lifecycle/Restart.antt =====
-- After which calls the coordinator of
-- application/composition/live_runtime_lifecycle_coordinator.py starts again, and after which it
-- never does.
use kospi200_project.Base.{◌≡◌, refl, ap, ◌∙◌, true, false, none, arith, inl, inr, is_none}
use kospi200_project.Base.Exn.{Result, Method, ok, is_ok, Result-cases}
use kospi200_project.Runtime.Lifecycle.{
  LiveRuntimeLifecycleCoordinator, ShutdownPolicy, Answers, drained, restart_admitted, logged,
  called_close_execution, called_controller_stop, assert_dependency_identity,
  release_transport_ownership, start, begin_receive,
}
use kospi200_project.Runtime.Lifecycle.Shutdown.{
  closed, invalid_timeouts, shut_down, drain, finish, release_or_halt, stop_started, stop,
  stop-restart_admitted,
}
use kospi200_project.Runtime.Lifecycle.Sound.{Sound}
use kospi200_project.Runtime.Lifecycle.Reach.{Reach, Reach-Sound}

-- A method that raises and changes nothing.
abbrev pub Refused : {S A : Type 0} → Result A × S → S → Type 0
Refused (r, s') s = (is_ok r ≡ false) × (s' ≡ s)

start-Refused :
    {R : Type 0} (p : ShutdownPolicy) (a : Answers R) (s : LiveRuntimeLifecycleCoordinator)
    → restart_admitted s ≡ false
    → Refused (start p a s) s
unfolding start
start-Refused p a s closed = elim (Result-cases (assert_dependency_identity s)) [
  | inl (u, e) ↦ (ground arith, ground arith)
  | inr (x, e) ↦ (ground arith, ground arith)
]

stop-Refused :
    {R : Type 0} (a : Answers R) (s : LiveRuntimeLifecycleCoordinator)
    → s.started ≡ false
    → is_none s.technical_state ≡ false
    → Refused (stop a s) s
unfolding stop
stop-Refused a s off technical = elim (Result-cases (assert_dependency_identity s)) [
  | inl (u, e) ↦ (ground arith, ground arith)
  | inr (x, e) ↦ (ground arith, ground arith)
]

begin_receive-Refused :
    (s : LiveRuntimeLifecycleCoordinator) → s.started ≡ false → Refused (begin_receive s) s
unfolding begin_receive
begin_receive-Refused s off = (ground arith, ground arith)

not_admitted :
    (s : LiveRuntimeLifecycleCoordinator)
    → is_none s.technical_state ≡ false
    → restart_admitted s ≡ false
unfolding restart_admitted
not_admitted s technical = ground arith

technical_not_started :
    (s : LiveRuntimeLifecycleCoordinator)
    → Sound s
    → is_none s.technical_state ≡ false
    → s.started ≡ false
technical_not_started s h technical = ground (arith, h.halted_when_technical)

-- In every reachable state that carries a technical state, `start`, `stop` and a receive all raise
-- and change nothing, whatever the collaborators would answer.
pub halted_forever :
    {R : Type 0} {s : LiveRuntimeLifecycleCoordinator} (p : ShutdownPolicy) (a : Answers R)
    → Reach R s
    → is_none s.technical_state ≡ false
    → Refused (start p a s) s × Refused (stop a s) s × Refused (begin_receive s) s
halted_forever {s = s} p a reached technical =
    let off = technical_not_started s (Reach-Sound reached) technical in
    (
      start-Refused p a s (not_admitted s technical),
      stop-Refused a s off technical,
      begin_receive-Refused s off,
    )

-- Every call returns, and the receives drain in time.
pub record Obliging {R : Type 0} (a : Answers R) : Type 0 where
  pub controller_starts : is_ok a.controller_start ≡ true
  pub recovers : is_ok a.startup_reconcile ≡ true
  pub execution_starts : is_ok a.start_execution ≡ true
  pub execution_closes : is_ok a.close_execution ≡ true
  pub drains : a.wait_graceful ≡ drained
  pub controller_stops : is_ok a.controller_stop ≡ true
  pub releases_ownership : is_ok a.release ≡ true

shut_down-Obliging :
    {R : Type 0} (a : Answers R) (s : LiveRuntimeLifecycleCoordinator)
    → Obliging a
    → shut_down a s ≡ (closed none, logged (called_close_execution true) s)
unfolding shut_down drain
shut_down-Obliging a s good = elim (Result-cases a.close_execution) [
  | inl (u, e) ↦ ground (arith, e, good.drains)
  | inr (x, e) ↦ ground (arith, good.execution_closes)
]

-- Ready to start, with the two collaborators that it was built with.
abbrev pub Fresh : LiveRuntimeLifecycleCoordinator → Type 0
Fresh s = (restart_admitted s ≡ true) × (assert_dependency_identity s ≡ ok tt)

release_or_halt-Obliging :
    {R : Type 0} (a : Answers R) (s : LiveRuntimeLifecycleCoordinator)
    → Obliging a
    → s.started ≡ false
    → (is_ok (release_or_halt none a s).0 ≡ true)
      × (restart_admitted (release_or_halt none a s).1 ≡ true)
      × (assert_dependency_identity (release_or_halt none a s).1 ≡ assert_dependency_identity s)
      × ((release_or_halt none a s).1.release_execution_transport_ownership ≡ false)
unfolding release_or_halt restart_admitted assert_dependency_identity release_transport_ownership
release_or_halt-Obliging a s good off = elim (Result-cases a.release) [
  | inl (u, e) ↦ (ground arith, ground arith, ground arith, ground arith)
  | inr (x, e) ↦ (
    ground (arith, good.releases_ownership),
    ground (arith, good.releases_ownership),
    ground (arith, good.releases_ownership),
    ground (arith, good.releases_ownership),
  )
]

start-Obliging :
    {R : Type 0} (p : ShutdownPolicy) (a : Answers R) (s : LiveRuntimeLifecycleCoordinator)
    → Obliging a
    → Fresh s
    → (is_ok (start p a s).0 ≡ true)
      × ((start p a s).1.started ≡ true)
      × ((start p a s).1.policy ≡ p)
      × (assert_dependency_identity (start p a s).1 ≡ ok tt)
unfolding start assert_dependency_identity
start-Obliging p a s good (free, same) = elim (Result-cases a.controller_start) [
  | inr (x, e) ↦ absurd (ground (arith, good.controller_starts))
  | inl (u, e) ↦ elim (Result-cases a.startup_reconcile) [
    | inr (x, e2) ↦ absurd (ground (arith, good.recovers))
    | inl (v, e2) ↦ elim (Result-cases a.start_execution) [
      | inr (x, e3) ↦ absurd (ground (arith, good.execution_starts))
      | inl (w, e3) ↦ (ground arith, ground arith, ground arith, ground arith)
    ]
  ]
]

-- What `stop` comes to when nothing goes wrong.
unfoldable last_steps : {R : Type 0} → Answers R → Method LiveRuntimeLifecycleCoordinator (Unit {0})
last_steps a s = release_or_halt none a (
    logged (called_controller_stop true)
      (logged (called_close_execution true) (record s { started = false; stopping = true })))

finish-Obliging :
    {R : Type 0} (a : Answers R) (s : LiveRuntimeLifecycleCoordinator)
    → Obliging a
    → finish (closed none) a (logged (called_close_execution true) (record s { stopping = true }))
      ≡ last_steps a s
unfolding finish last_steps
finish-Obliging a s good = elim (Result-cases a.controller_stop) [
  | inl (u, e) ↦ simp e
  | inr (x, e) ↦ ground (arith, good.controller_stops)
]

stop_started_state :
    {R : Type 0} (a : Answers R) (s : LiveRuntimeLifecycleCoordinator)
    → let (c, s') = shut_down a (record s { stopping = true }) in
      (stop_started a s).1 ≡ (finish c a s').1
unfolding stop_started
stop_started_state a s =
    let (c, s') = shut_down a (record s { stopping = true }) in
    elim (Result-cases (finish c a s').0) [
      | inl (u, e) ↦ ground (arith, e)
      | inr (x, e) ↦ ground (arith, e)
    ]

stop_state :
    {R : Type 0} (a : Answers R) (s : LiveRuntimeLifecycleCoordinator)
    → Obliging a
    → s.started ≡ true
    → invalid_timeouts s.policy ≡ false
    → assert_dependency_identity s ≡ ok tt
    → (stop a s).1 ≡ (last_steps a s).1
unfolding stop
stop_state a s good on valid same =
    let whole : stop a s ≡ stop_started a s = ground (arith, on, valid, same) in
    let opened = record s { stopping = true } in
    rw whole (
      stop_started_state a s
      ∙ ap (λ r. (finish r.0 a r.1).1) (shut_down-Obliging a opened good)
      ∙ ap (λ r. r.1) (finish-Obliging a s good))

stop-Obliging :
    {R : Type 0} (a : Answers R) (s : LiveRuntimeLifecycleCoordinator)
    → Obliging a
    → s.started ≡ true
    → invalid_timeouts s.policy ≡ false
    → assert_dependency_identity s ≡ ok tt
    → (is_ok (stop a s).0 ≡ true)
      × Fresh (stop a s).1
      × ((stop a s).1.release_execution_transport_ownership ≡ false)
unfolding last_steps assert_dependency_identity
stop-Obliging a s good on valid same =
    let ends = stop_state a s good on valid same in
    let s' =
      logged (called_controller_stop true)
        (logged (called_close_execution true) (record s { started = false; stopping = true })) in
    let (returned, free, kept, given) = release_or_halt-Obliging a s' good refl in
    let fresh = ap restart_admitted ends ∙ free in
    (
      stop-restart_admitted a s on ∙ fresh,
      (fresh, ap assert_dependency_identity ends ∙ kept ∙ same),
      ap (λ t. t.release_execution_transport_ownership) ends ∙ given,
    )

-- When every call to a collaborator returns and the receives drain in time, a start followed by a
-- stop succeeds, gives the ownership of the transport back, and leaves a coordinator that starts
-- again.
pub start-stop-start :
    {R : Type 0} (p : ShutdownPolicy) (a : Answers R) (s : LiveRuntimeLifecycleCoordinator)
    → Obliging a
    → Fresh s
    → invalid_timeouts p ≡ false
    → let running = (start p a s).1 in
      let stopped = (stop a running).1 in
      (is_ok (start p a s).0 ≡ true)
      × (is_ok (stop a running).0 ≡ true)
      × (stopped.release_execution_transport_ownership ≡ false)
      × (is_ok (start p a stopped).0 ≡ true)
      × ((start p a stopped).1.started ≡ true)
start-stop-start p a s good fresh valid =
    let (returned, on, kept, same) = start-Obliging p a s good fresh in
    let running = (start p a s).1 in
    let (ended, again, given) =
      stop-Obliging a running good on (ap invalid_timeouts kept ∙ valid) same in
    let (restarted, on_again, _, _) = start-Obliging p a (stop a running).1 good again in
    (returned, ended, given, restarted, on_again)
