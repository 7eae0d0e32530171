-- ===== src/Events/Stale.antt =====
-- crates/micromux/src/scheduler.rs: `handle_event` on events of a run that is over.
use micromux.Prelude.{◌≡◌, refl, true, false, Option, some, arith, lookup, lookup-insert_self}
use micromux.Restart.{RestartTracker}
use micromux.Model.{ExitCode}
use micromux.Service.{Service, ServiceMap}
use micromux.Runtime.{Clock, DesiredState, State, RunningService, ServiceRuntime}
use micromux.Runtime.Methods.{current_run_id}
use micromux.Runtime.Finish.{finish_log_reader}
use micromux.Session.{Session}
use micromux.Events.{
  ProcessEvent, killed, exited, log_reader_finished, healthy, unhealthy, input_dropped,
  service_id_of, event_run_id, is_taken, is_run, handle_event,
}
use micromux.Events.Handled.{untouched, changed, after_event, handle_event-Handled}

-- What of a runtime only its own run, a command or a start may change.
abbrev pub core :
    ServiceRuntime
    → DesiredState × (State × (Option RunningService × (RestartTracker × Option ExitCode)))
core r = (r.desired, (r.state, (r.running, (r.restart, r.last_exit_code))))

after_stale :
    (clock : Clock) (service : Option Service) (event : ProcessEvent) (r : ServiceRuntime)
    → is_run (current_run_id r) (event_run_id event) ≡ false
    → is_taken event r ≡ true
    → core (after_event clock service event r) ≡ core r
unfolding is_taken finish_log_reader
after_stale clock service (killed id run_id) r s t = ground arith
after_stale clock service (exited id run_id exit_code) r s t = ground arith
after_stale clock service (log_reader_finished id run_id) r s t = ground arith
after_stale clock service (healthy id run_id) r s t = ground arith
after_stale clock service (unhealthy id run_id) r s t = ground arith
after_stale clock service (input_dropped id run_id) r s t = refl

-- An event whose run is not the current run of its service, which is known, leaves what the
-- service is to be, its state, its process, its restart tracker and its last exit code.
pub handle_event-stale :
    (clock : Clock) (services : ServiceMap) (event : ProcessEvent) (s : Session)
    (r : ServiceRuntime)
    → lookup (service_id_of event) s.runtimes ≡ some r
    → is_run (current_run_id r) (event_run_id event) ≡ false
    → (r' : ServiceRuntime) × (lookup
          (service_id_of event)
          (handle_event clock services event s).0.runtimes
        ≡ some r')
      × (core r' ≡ core r)
handle_event-stale clock services event s r l stale =
    elim (handle_event-Handled clock services event s) [
      | untouched why e ↦ (r, rw e l, refl)
      | changed w k t known e ↦
          let same : w ≡ r = cc in
          (
            after_event clock (lookup (service_id_of event) services) event w,
            rw e (lookup-insert_self (service_id_of event) _ s.runtimes),
            rw same (
                after_stale clock (lookup (service_id_of event) services) event r stale
                  (rw same at t)),
          )
    ]
