-- ===== src/Runtime/Tests.antt =====
-- The theorems on the runtime at concrete collaborators that answer or raise.
use kospi200_project.Base.{◌≡◌, refl, true, false, none, some, String, ℕ, List, [], ◌∷◌}
use kospi200_project.Base.Decimal.{of_ℕ}
use kospi200_project.Base.Exn.{Result, ok, is_ok, raise, runtime_error}
use kospi200_project.Runtime.Lifecycle.{
  LiveRuntimeLifecycleCoordinator, ShutdownPolicy, Answers, drained, timed_out, new_coordinator,
  restart_admitted, assert_dependency_identity, start, begin_receive,
}
use kospi200_project.Runtime.Lifecycle.Shutdown.{invalid_timeouts, stop, stop-restart_admitted}
use kospi200_project.Runtime.Lifecycle.Sound.{Sound}
use kospi200_project.Runtime.Lifecycle.Reach.{Reach, new, next, starts, begins, stops, Reach-Sound}
use kospi200_project.Runtime.Lifecycle.Restart.{Refused, halted_forever, Obliging, start-stop-start}
use kospi200_project.Runtime.Environment as Environment
use kospi200_project.Runtime.Environment.{run_refines}

abbrev usual : ShutdownPolicy
usual = record {
  graceful_shutdown_timeout_seconds = some (of_ℕ 3);
  cancellation_drain_timeout_seconds = none;
}

abbrev answering : Answers ℕ
answering = record {
  controller_start = ok tt;
  startup_reconcile = ok 7;
  start_execution = ok tt;
  close_execution = ok tt;
  wait_graceful = drained;
  cancel_receives = ok tt;
  wait_cancelled = drained;
  controller_stop = ok tt;
  release = ok tt;
}

-- The receives never drain.
abbrev stuck : Answers ℕ
stuck = record answering { wait_graceful = timed_out; wait_cancelled = timed_out }

abbrev fresh : LiveRuntimeLifecycleCoordinator
fresh = new_coordinator 1 2 true

abbrev running : LiveRuntimeLifecycleCoordinator
unfolding start
running = (start usual answering fresh).1

abbrev receiving : LiveRuntimeLifecycleCoordinator
unfolding begin_receive
receiving = (begin_receive running).1

abbrev halted_state : LiveRuntimeLifecycleCoordinator
unfolding stop
halted_state = (stop stuck receiving).1

times_out : halted_state.technical_state ≡ some "STOP_TIMEOUT"
unfolding halted_state receiving running
times_out = refl

reached : Reach ℕ halted_state
unfolding start begin_receive stop
reached =
    next (next (next (new 1 2 true) (starts usual answering fresh)) (begins running))
      (stops stuck receiving)

Reach-Sound_example : Sound halted_state
Reach-Sound_example = Reach-Sound reached

halted_forever_example :
    Refused (start usual answering halted_state) halted_state
    × Refused (stop answering halted_state) halted_state
    × Refused (begin_receive halted_state) halted_state
unfolding halted_state receiving running
halted_forever_example = halted_forever usual answering reached refl

stop-restart_admitted_example :
    is_ok (stop stuck receiving).0 ≡ restart_admitted (stop stuck receiving).1
unfolding receiving running
stop-restart_admitted_example = stop-restart_admitted stuck receiving refl

all_answer : Obliging answering
all_answer = record {
  controller_starts = refl;
  recovers = refl;
  execution_starts = refl;
  execution_closes = refl;
  drains = refl;
  controller_stops = refl;
  releases_ownership = refl;
}

start-stop-start_example :
    let started = (start usual answering fresh).1 in
    let stopped = (stop answering started).1 in
    (is_ok (start usual answering fresh).0 ≡ true)
    × (is_ok (stop answering started).0 ≡ true)
    × (stopped.release_execution_transport_ownership ≡ false)
    × (is_ok (start usual answering stopped).0 ≡ true)
    × ((start usual answering stopped).1.started ≡ true)
unfolding restart_admitted assert_dependency_identity invalid_timeouts
start-stop-start_example = start-stop-start usual answering fresh all_answer (refl, refl) refl

abbrev live : Environment.EnvironmentConfig
live = record { environment = "LIVE"; name = "live" }

abbrev builds : Environment.EnvironmentConfig → Result String
builds config = ok config.environment

abbrev calls : List Environment.Call
calls =
    Environment.starts live
    ∷ Environment.starts live
    ∷ Environment.stops
    ∷ Environment.starts live
    ∷ []

run_refines_example :
    ((Environment.run builds calls Environment.new_controller).0
      ≡ ok tt ∷ raise runtime_error "runtime is already running" ∷ ok tt ∷ ok tt ∷ [])
    × (Environment.status (Environment.run builds calls Environment.new_controller).1
        ≡ record { environment = some "LIVE"; state = "RUNNING" })
unfolding Environment.promised_run
run_refines_example = run_refines builds calls

-- The factory of this revision raises on every start, and the controller stays as it was built.
never_starts :
    Environment.run Environment.factory_create
      (Environment.starts live ∷ [])
      Environment.new_controller
    ≡ (Environment.factory_raises ∷ [], Environment.new_controller)
unfolding Environment.run Environment.start Environment.factory_create
never_starts = refl
