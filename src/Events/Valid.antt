-- ===== src/Events/Valid.antt =====
-- crates/micromux/src/scheduler.rs: `handle_event` and the invariant of the runtimes.
use micromux.Prelude.{ℕ, ◌≡◌, true, false, Option, none, some, arith, lookup, is_some, ◌||◌}
use micromux.Model.{ServiceId, ExitCode, Health}
use micromux.Service.{Service, ServiceMap}
use micromux.Runtime.{Clock, ServiceRuntime}
use micromux.Runtime.Methods.{current_run_id}
use micromux.Runtime.Invariant.{
  IsValid, mark_killed-IsValid, mark_health-IsValid, finish_current_run-IsValid,
  finish_log_reader-IsValid,
}
use micromux.Session.{Session}
use micromux.Events.{
  ProcessEvent, killed, exited, log_reader_finished, healthy, unhealthy, input_dropped,
  service_id_of, is_taken, is_run, handle_event,
}
use micromux.Events.Handled.{untouched, changed, after_event, handle_event-Handled}
use micromux.Schedule.Valid.{AreValid, lookup-IsValid, insert-AreValid}

after_exit-IsValid :
    (clock : Clock) (service : Option Service) (id : ServiceId) (run_id : ℕ) (exit_code : ExitCode)
    (r : ServiceRuntime)
    → is_some r.running ≡ true
    → IsValid r
    → IsValid (after_event clock service (exited id run_id exit_code) r)
after_exit-IsValid clock none id run_id exit_code r live v = v
after_exit-IsValid clock (some service) id run_id exit_code r live v =
    finish_current_run-IsValid clock service.spec.restart exit_code r live v

-- An event of the current run finds a process.
current_live :
    (r : ServiceRuntime) (run_id : ℕ)
    → (is_run (current_run_id r) run_id || false) ≡ true
    → is_some r.running ≡ true
current_live r run_id h = ground arith

after_event-IsValid :
    (clock : Clock) (service : Option Service) (event : ProcessEvent) (r : ServiceRuntime)
    → is_taken event r ≡ true
    → IsValid r
    → IsValid (after_event clock service event r)
unfolding is_taken
after_event-IsValid clock service (killed id run_id) r t v =
    mark_killed-IsValid r (current_live r run_id t) v
after_event-IsValid clock service (exited id run_id exit_code) r t v =
    after_exit-IsValid clock service id run_id exit_code r (current_live r run_id t) v
after_event-IsValid clock service (log_reader_finished id run_id) r t v =
    finish_log_reader-IsValid run_id r v
after_event-IsValid clock service (healthy id run_id) r t v =
    mark_health-IsValid Health.healthy r (current_live r run_id t) v
after_event-IsValid clock service (unhealthy id run_id) r t v =
    mark_health-IsValid Health.unhealthy r (current_live r run_id t) v
after_event-IsValid clock service (input_dropped id run_id) r t v = ground arith

-- When every runtime is well formed, every runtime is so after an event was handled, whatever the
-- event and its run.
pub handle_event-AreValid :
    (clock : Clock) (services : ServiceMap) (event : ProcessEvent) (s : Session)
    → AreValid s.runtimes
    → AreValid (handle_event clock services event s).0.runtimes
handle_event-AreValid clock services event s v =
    elim (handle_event-Handled clock services event s) [
      | untouched why e ↦ rw e v
      | changed r l t known e ↦ rw e (
          insert-AreValid (service_id_of event)
            (after_event clock (lookup (service_id_of event) services) event r) s.runtimes
            (after_event-IsValid clock (lookup (service_id_of event) services) event r t
              (lookup-IsValid (service_id_of event) s.runtimes r v l))
            v)
    ]
