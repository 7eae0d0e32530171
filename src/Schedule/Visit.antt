-- ===== src/Schedule/Visit.antt =====
-- What one visit of the loop does to the runtimes, with the writer's calls left out.
use micromux.Prelude.{ℕ, ◌≡◌, ◌≢◌, [], Bool, true, false, Option, none, some, lookup, insert}
use micromux.Model.{ServiceId, ExitCode, negsuc}
use micromux.Service.{Service}
use micromux.Runtime.{Clock, RunningService, ServiceRuntime}
use micromux.Runtime.Methods.{mark_started, allocate_run_id}
use micromux.Runtime.Finish.{finish_failed_start}
use micromux.Session.{Runtimes}
use micromux.Schedule.{skip, consider, blocking_dependencies, should_consider_start, check_runtime}
use micromux.Schedule.Start.{Spawn, StartedPty, prepare_start, unblocked}

abbrev pub numbered : Service → Option ExitCode → ServiceRuntime → ServiceRuntime
numbered service exited_code r = (allocate_run_id (prepare_start service exited_code r)).0

abbrev pub new_run : Service → Option ExitCode → ServiceRuntime → ℕ
new_run service exited_code r = (allocate_run_id (prepare_start service exited_code r)).1

abbrev pub live_run : Clock → ℕ → StartedPty → RunningService
live_run clock run_id started = record {
  run_id = run_id;
  pid = started.pid;
  terminate = false;
  log_reader = some started.log_reader;
  since = clock.now;
}

-- A visit leaves the runtimes, forgets a block, or tries one spawn, which succeeds or fails.
pub data Visit (spawn : Spawn) (clock : Clock) (id : ServiceId) (service : Service) (m : Runtimes)
    (m' : Runtimes) (started : Bool) : Type 0 where
  skipped :
      should_consider_start clock.now m id service ≡ skip
      → started ≡ false
      → m' ≡ m
      → Visit spawn clock id service m m' started
  freed :
      (r : ServiceRuntime)
      → should_consider_start clock.now m id service ≡ skip
      → started ≡ false
      → lookup id m ≡ some r
      → m' ≡ insert id (unblocked r) m
      → Visit spawn clock id service m m' started
  held :
      blocking_dependencies m service ≢ []
      → started ≡ false
      → m' ≡ m
      → Visit spawn clock id service m m' started
  absent : lookup id m ≡ none → started ≡ false → m' ≡ m → Visit spawn clock id service m m' started
  failed :
      (r : ServiceRuntime) (exited_code : Option ExitCode)
      → check_runtime clock.now service r ≡ consider exited_code
      → blocking_dependencies m service ≡ []
      → lookup id m ≡ some r
      → started ≡ false
      → m'
        ≡ insert id
            (finish_failed_start clock service.spec.restart
              (new_run service exited_code r)
              (negsuc 0)
              (numbered service exited_code r))
            m
      → Visit spawn clock id service m m' started
  begun :
      (r : ServiceRuntime) (exited_code : Option ExitCode) (pty : StartedPty)
      → check_runtime clock.now service r ≡ consider exited_code
      → blocking_dependencies m service ≡ []
      → lookup id m ≡ some r
      → started ≡ true
      → m'
        ≡ insert id
            (mark_started clock
              (live_run clock (new_run service exited_code r) pty)
              (numbered service exited_code r))
            m
      → Visit spawn clock id service m m' started
