-- ===== src/Runtime/Lifecycle/Sound.antt =====
-- The invariant of the lifecycle coordinator
-- (application/composition/live_runtime_lifecycle_coordinator.py), and that its small steps keep it.
use kospi200_project.Base.{
  ℕ, ◌≤◌, ◌≡◌, refl, String, Bool, true, false, ◌&&◌, none, List, [], ◌∷◌, if◌then◌else◌, eqb,
  arith, ◌⊎◌, inl, inr, ◌+◌,
}
use kospi200_project.Base.Exn.{Exn, Result}
use kospi200_project.Runtime.Lifecycle.{
  LiveRuntimeLifecycleCoordinator, ShutdownPolicy, Call, called_controller_start,
  called_startup_reconcile, called_start_execution, called_controller_stop, called_release, logged,
  halted, halted_by, release_transport_ownership, begin_receive, end_receive,
}

abbrev pub starts_controller : List Call → Bool
starts_controller [] = false
starts_controller (c ∷ _) = elim c [ called_controller_start b ↦ b | _ ↦ false ]

abbrev pub reconciles : List Call → Bool
reconciles [] = false
reconciles (c ∷ _) = elim c [ called_startup_reconcile b ↦ b | _ ↦ false ]

abbrev pub stops_controller : List Call → Bool
stops_controller [] = false
stops_controller (c ∷ _) = elim c [ called_controller_stop b ↦ b | _ ↦ false ]

-- What the call before has to be: the recovery comes right after the controller's start, the
-- execution starts right after the recovery, the ownership is released right after the controller's
-- stop; each of those has returned.
abbrev pub follows : Call → List Call → Bool
follows c before = elim c [
  | called_startup_reconcile _ ↦ starts_controller before
  | called_start_execution _ ↦ reconciles before
  | called_release _ ↦ stops_controller before
  | _ ↦ true
]

abbrev pub ordered : List Call → Bool
ordered [] = true
ordered (c ∷ before) = follows c before && ordered before

-- How often the ownership was given back.
abbrev pub releases : List Call → ℕ
releases [] = 0
releases (c ∷ before) = elim c [
  | called_release b ↦ if b then releases before + 1 else releases before
  | _ ↦ releases before
]

pub record Sound (s : LiveRuntimeLifecycleCoordinator) : Type 0 where
  pub calls_ordered : ordered s.calls ≡ true
  pub released_once :
      releases s.calls + (if s.release_execution_transport_ownership then 1 else 0) ≤ 1
  pub halted_when_technical :
      (s.technical_state ≡ none) ⊎ ((s.started ≡ false) × (s.stopping ≡ true))
  pub idle_when_stopping : (s.started && s.stopping) ≡ false
  pub drained_when_idle : s.receives_drained ≡ eqb s.active_receives 0

pub release-Sound :
    (r : Result (Unit {0})) (s : LiveRuntimeLifecycleCoordinator)
    → stops_controller s.calls ≡ true
    → Sound s
    → Sound (release_transport_ownership r s).1
unfolding release_transport_ownership
release-Sound r s after h = record {
  calls_ordered = ground (arith, h);
  released_once = ground (arith, h);
  halted_when_technical = ground (arith, h);
  idle_when_stopping = ground (arith, h);
  drained_when_idle = ground (arith, h);
}

pub halted_by-Sound :
    (t : String) (e : Exn) (s : LiveRuntimeLifecycleCoordinator) → Sound s → Sound (halted_by t e s)
unfolding halted_by
halted_by-Sound t e s h = record {
  calls_ordered = ground (arith, h);
  released_once = ground (arith, h);
  halted_when_technical = ground (arith, h);
  idle_when_stopping = ground (arith, h);
  drained_when_idle = ground (arith, h);
}

-- A call that needs none before it.
unfoldable pub plain : Call → Bool
plain c = elim c [
  | called_startup_reconcile _ ↦ false
  | called_start_execution _ ↦ false
  | called_release _ ↦ false
  | _ ↦ true
]

pub logged-Sound :
    (c : Call) (s : LiveRuntimeLifecycleCoordinator) → plain c ≡ true → Sound s → Sound (logged c s)
unfolding plain
logged-Sound c s free h = record {
  calls_ordered = ground (arith, h);
  released_once = ground (arith, h);
  halted_when_technical = ground (arith, h);
  idle_when_stopping = ground (arith, h);
  drained_when_idle = ground (arith, h);
}

pub halted-Sound : (t : String) (s : LiveRuntimeLifecycleCoordinator) → Sound s → Sound (halted t s)
halted-Sound t s h = record {
  calls_ordered = h.calls_ordered;
  released_once = h.released_once;
  halted_when_technical = inr (refl, refl);
  idle_when_stopping = refl;
  drained_when_idle = h.drained_when_idle;
}

-- A call that comes right after one that returned.
pub next-Sound :
    (c : Call) (s : LiveRuntimeLifecycleCoordinator)
    → follows c s.calls ≡ true
    → releases (c ∷ s.calls) ≡ releases s.calls
    → Sound s
    → Sound (logged c s)
next-Sound c s after same h = record {
  calls_ordered = rw (after, h.calls_ordered);
  released_once = rw same h.released_once;
  halted_when_technical = h.halted_when_technical;
  idle_when_stopping = h.idle_when_stopping;
  drained_when_idle = h.drained_when_idle;
}

pub begin_receive-Sound :
    (s : LiveRuntimeLifecycleCoordinator) → Sound s → Sound (begin_receive s).1
unfolding begin_receive
begin_receive-Sound s h = record {
  calls_ordered = ground (arith, h);
  released_once = ground (arith, h);
  halted_when_technical = ground (arith, h);
  idle_when_stopping = ground (arith, h);
  drained_when_idle = ground (arith, h);
}

pub end_receive-Sound : (s : LiveRuntimeLifecycleCoordinator) → Sound s → Sound (end_receive s)
unfolding end_receive
end_receive-Sound s h = record {
  calls_ordered = ground (arith, h);
  released_once = ground (arith, h);
  halted_when_technical = ground (arith, h);
  idle_when_stopping = ground (arith, h);
  drained_when_idle = ground (arith, h);
}

pub started-Sound :
    (p : ShutdownPolicy) (s : LiveRuntimeLifecycleCoordinator)
    → Sound s
    → Sound (record s { started = true; stopping = false; policy = p; technical_state = none })
started-Sound p s h = record {
  calls_ordered = h.calls_ordered;
  released_once = h.released_once;
  halted_when_technical = inl refl;
  idle_when_stopping = refl;
  drained_when_idle = h.drained_when_idle;
}
