-- ===== src/Runtime/Lifecycle/Reach.antt =====
-- What is true of the lifecycle coordinator
-- (application/composition/live_runtime_lifecycle_coordinator.py) in every state that its methods
-- reach from a new one, whatever the collaborators answer.
use kospi200_project.Base.{ℕ, refl, Bool, true, false, arith, inl}
use kospi200_project.Runtime.Lifecycle.{
  LiveRuntimeLifecycleCoordinator, ShutdownPolicy, Answers, new_coordinator, start, begin_receive,
  end_receive,
}
use kospi200_project.Runtime.Lifecycle.Shutdown.{stop}
use kospi200_project.Runtime.Lifecycle.Sound.{Sound, begin_receive-Sound, end_receive-Sound}
use kospi200_project.Runtime.Lifecycle.Starting.{start-Sound}
use kospi200_project.Runtime.Lifecycle.Stopping.{stop-Sound}

pub data Step (R : Type 0)
    : LiveRuntimeLifecycleCoordinator → LiveRuntimeLifecycleCoordinator → Type 0 where
  starts :
      (p : ShutdownPolicy) (a : Answers R) (s : LiveRuntimeLifecycleCoordinator)
      → Step R s (start p a s).1
  begins : (s : LiveRuntimeLifecycleCoordinator) → Step R s (begin_receive s).1
  ends : (s : LiveRuntimeLifecycleCoordinator) → Step R s (end_receive s)
  stops : (a : Answers R) (s : LiveRuntimeLifecycleCoordinator) → Step R s (stop a s).1

pub data Reach (R : Type 0) : LiveRuntimeLifecycleCoordinator → Type 0 where
  new : (c b : ℕ) (callback : Bool) → Reach R (new_coordinator c b callback)
  next : {s t : LiveRuntimeLifecycleCoordinator} → Reach R s → Step R s t → Reach R t

pub Reach-Sound : {R : Type 0} {s : LiveRuntimeLifecycleCoordinator} → Reach R s → Sound s
Reach-Sound (new c b true) = record {
  calls_ordered = refl;
  released_once = omega arith;
  halted_when_technical = inl refl;
  idle_when_stopping = refl;
  drained_when_idle = refl;
}
Reach-Sound (new c b false) = record {
  calls_ordered = refl;
  released_once = omega arith;
  halted_when_technical = inl refl;
  idle_when_stopping = refl;
  drained_when_idle = refl;
}
Reach-Sound (next before (starts p a s)) = start-Sound p a s (Reach-Sound before)
Reach-Sound (next before (begins s)) = begin_receive-Sound s (Reach-Sound before)
Reach-Sound (next before (ends s)) = end_receive-Sound s (Reach-Sound before)
Reach-Sound (next before (stops a s)) = stop-Sound a s (Reach-Sound before)
