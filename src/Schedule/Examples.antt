-- ===== src/Schedule/Examples.antt =====
-- Two services, of which the second waits for the first, and a system that starts every process.
use micromux.Prelude.{
  ℕ, ◌<◌, ◌≡◌, refl, [], ◌∷◌, true, false, not, ◌&&◌, some, ltb, arith, if◌then◌else◌, lookup,
  insert,
}
use micromux.Restart.{always, on_failure, new_tracker}
use micromux.Restart.Budget.{Follows}
use micromux.Model.{pos, negsuc}
use micromux.Service.{Service, ServiceMap, DependencyCondition, StartupMode}
use micromux.Runtime.{ServiceRuntime, new_runtime}
use micromux.Runtime.Methods.{request_restart, disable}
use micromux.Runtime.Finish.{finish_current_run, will_auto_restart}
use micromux.Runtime.Invariant.{IsValid, new_runtime-IsValid}
use micromux.Runtime.Examples.{service_named, clock_at, live_runtime, live_runtime-IsValid}
use micromux.Session.{Session}
use micromux.Schedule.{skip, consider, check_runtime, should_consider_start, blocking_dependencies}
use micromux.Schedule.Start.{Spawn, start_service_if_ready}
use micromux.Schedule.Loop.{visit, schedule_ready}
use micromux.Schedule.Startable.{is_consider}
use micromux.Schedule.Valid.{AreValid, schedule_ready-AreValid}
use micromux.Schedule.Termination.{idle_count, schedule_ready_total}
use micromux.Schedule.Settled.{AreDistinct, AreSettled}
use micromux.Schedule.Returns.{schedule_ready_settles}
use micromux.Schedule.Gate.{IsBegun, visit_starts}
use micromux.Schedule.Requests.{
  ended, deadline_of, request_restart-starts, disable-stays, finish_current_run-restarts,
}

abbrev db : Service
db = service_named "db"

abbrev web : Service
web = record db {
  id = "web";
  spec = record db.spec {
    depends_on = (record { service = "db"; condition = DependencyCondition.started }) ∷ [];
  };
}

abbrev services : ServiceMap
services = ("web", web) ∷ ("db", db) ∷ []

abbrev start : Session
start = record {
  runtimes =
      ("web", new_runtime always StartupMode.enabled)
      ∷ ("db", new_runtime always StartupMode.enabled)
      ∷ [];
  calls = [];
}

abbrev spawn : Spawn
spawn id run_id = some (record { pid = some run_id; log_reader = record { cancelled = false } })

start-AreValid : AreValid start.runtimes
start-AreValid = (
  new_runtime-IsValid always StartupMode.enabled,
  (new_runtime-IsValid always StartupMode.enabled, tt),
)

services-AreDistinct : AreDistinct services
services-AreDistinct = ((refl, tt), (tt, tt))

returned : (s' : Session) × (schedule_ready spawn clock_at services 3 0 start ≡ some s')
unfolding idle_count new_runtime
returned = schedule_ready_total spawn clock_at services 3 0 start (omega arith)

schedule_ready_total_example :
    (s' : Session) × (schedule_ready spawn clock_at services 3 0 start ≡ some s')
unfolding idle_count new_runtime
schedule_ready_total_example = schedule_ready_total spawn clock_at services 3 0 start (omega arith)

schedule_ready-AreValid_example : AreValid returned.0.runtimes
schedule_ready-AreValid_example =
    schedule_ready-AreValid spawn clock_at services 3 0 start start-AreValid returned.1

schedule_ready_settles_example :
    (last : ℕ) × AreSettled (clock_at last).now returned.0.runtimes services
schedule_ready_settles_example =
    schedule_ready_settles spawn clock_at services 3 0 start services-AreDistinct start-AreValid
      returned.1

visit_starts_example :
    IsBegun start.runtimes (visit spawn (clock_at 5) "db" db start).0.runtimes 5 "db" db
unfolding visit should_consider_start start_service_if_ready blocking_dependencies lookup insert
    new_runtime
visit_starts_example = visit_starts spawn (clock_at 5) "db" db start refl

abbrev failing : ServiceRuntime
failing = record live_runtime { restart = new_tracker (on_failure (some 2)) }

abbrev restarting : Service
restarting = record db { spec = record db.spec { restart = on_failure (some 2) } }

failing-IsValid : IsValid failing
unfolding new_runtime new_tracker
failing-IsValid = ground arith

failing-Follows : Follows (on_failure (some 2)) failing.restart
unfolding new_tracker
failing-Follows = ground arith

finish_current_run-restarts_example :
    let over = finish_current_run (clock_at 50) (on_failure (some 2)) (pos 1) failing in
    let restarts = will_auto_restart (on_failure (some 2)) (pos 1) failing in
    (check_runtime 90 restarting over
      ≡ (if restarts && not (ltb 90 (deadline_of over)) then consider (some (pos 1)) else skip))
    × (restarts ≡ true → 50 < deadline_of over)
unfolding new_runtime
finish_current_run-restarts_example =
    finish_current_run-restarts (clock_at 50) 90 restarting (pos 1) failing failing-IsValid
      failing-Follows refl refl refl

request_restart-starts_example :
    is_consider
      (check_runtime 9 db (ended (clock_at 8) always (negsuc 0) (request_restart live_runtime)))
    ≡ true
request_restart-starts_example =
    request_restart-starts (clock_at 8) 9 db (negsuc 0) live_runtime live_runtime-IsValid

disable-stays_example :
    (check_runtime 9 db (disable live_runtime) ≡ skip)
    × (check_runtime 9 db (ended (clock_at 8) always (pos 0) (disable live_runtime)) ≡ skip)
disable-stays_example = disable-stays (clock_at 8) 9 db (pos 0) live_runtime
