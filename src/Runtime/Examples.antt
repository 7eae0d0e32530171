-- ===== src/Runtime/Examples.antt =====
-- A service with a process, and a throttle under load.
use micromux.Prelude.{ℕ, ◌+◌, ◌≡◌, [], ◌∷◌, String, true, false, none, some, is_some, arith}
use micromux.Restart.{always, new_tracker}
use micromux.Model.{Execution, Health}
use micromux.Service.{Service, ServiceOrigin, StartupMode}
use micromux.Runtime.{Clock, State, ServiceRuntime, new_runtime}
use micromux.Runtime.Drops.{no_drops}
use micromux.Runtime.Projection.{project_snapshot}
use micromux.Runtime.Reports.{dropped, looked, run_throttle, drops_of, run_throttle_conserves}
use micromux.Runtime.Invariant.{IsValid}
use micromux.Runtime.Shown.{shown, project_snapshot-shown}

abbrev pub service_named : String → Service
service_named id = record {
  id = id;
  spec = record {
    name = none;
    command = "run" ∷ [];
    working_dir = none;
    environment = [];
    depends_on = [];
    healthcheck = none;
    ports = 8080 ∷ [];
    restart = always;
    stop_grace_period = 5_000_000_000;
  };
  origin = ServiceOrigin.configured;
  startup_mode = StartupMode.enabled;
}

abbrev pub clock_at : ℕ → Clock
clock_at n = record { now = n; std_now = n; unix_ms = some n }

-- A runtime whose process reported that it is healthy.
abbrev pub live_runtime : ServiceRuntime
live_runtime = record (new_runtime always StartupMode.enabled) {
  running =
      some (record { run_id = 1; pid = some 42; terminate = false; log_reader = none; since = 7 });
  state = State.running (some Health.healthy);
  uptime_started_at = some 7;
  started_at_unix_ms = some 7;
  next_run_id = 1;
}

pub live_runtime-IsValid : IsValid live_runtime
unfolding new_runtime new_tracker
live_runtime-IsValid = ground arith

project_snapshot-shown_example :
    let (snapshot, started_at) = project_snapshot 9 (service_named "web") live_runtime in
    (snapshot.execution ≡ shown live_runtime)
    × ((is_some snapshot.health ≡ true → snapshot.execution ≡ Execution.running)
        × ((is_some snapshot.pid ≡ true → is_some live_runtime.running ≡ true)
            × ((is_some started_at ≡ is_some live_runtime.running)
                × (is_some snapshot.started_at_unix_ms ≡ true
                    → is_some live_runtime.running ≡ true))))
project_snapshot-shown_example =
    project_snapshot-shown 9 (service_named "web") live_runtime live_runtime-IsValid

-- Three drops and a look: the first is reported at once, the others at the look.
run_throttle_conserves_example :
    let events = dropped 0 ∷ dropped 1 ∷ dropped 2 ∷ looked 1_000_000_000 ∷ [] in
    (run_throttle events no_drops).1 + (run_throttle events no_drops).0.suppressed
    ≡ no_drops.suppressed + drops_of events
run_throttle_conserves_example =
    run_throttle_conserves (dropped 0 ∷ dropped 1 ∷ dropped 2 ∷ looked 1_000_000_000 ∷ []) no_drops
      (omega arith)
