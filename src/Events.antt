-- ===== src/Events.antt =====
-- crates/micromux/src/scheduler.rs: the handling of what a process's tasks report, with
-- `ProcessEvent` of crates/micromux/src/scheduler/types.rs.
-- The kind and the reason of discarded input are left out, since they only word the event.
pub mod Written
pub mod Handled
pub mod Effect
pub mod Concerning
pub mod Effected
pub mod Valid
pub mod Stale
mod Examples
use micromux.Prelude.{
  ℕ, List, [], ◌∷◌, Bool, true, false, ◌||◌, Option, none, some, ◌==◌, if◌then◌else◌, map_or,
  is_none, lookup, exists,
}
use micromux.Model.{ServiceId, ExitCode, Health, ServiceEventKind, append_event}
use micromux.Service.{Service, ServiceMap}
use micromux.Runtime.{Clock, DrainingLogReader, ServiceRuntime}
use micromux.Runtime.Drops.{record_drop}
use micromux.Runtime.Methods.{current_run_id, mark_health, mark_killed}
use micromux.Runtime.Finish.{finish_current_run, finish_log_reader}
use micromux.Session.{Session, call, put, sync, service_event, append_service_event}
use micromux.Schedule.Start.{announce_backoff}

pub data ProcessEvent : Type 0 where
  killed : (service_id : ServiceId) (run_id : ℕ) → ProcessEvent
  exited : (service_id : ServiceId) (run_id : ℕ) (exit_code : ExitCode) → ProcessEvent
  log_reader_finished : (service_id : ServiceId) (run_id : ℕ) → ProcessEvent
  healthy : (service_id : ServiceId) (run_id : ℕ) → ProcessEvent
  unhealthy : (service_id : ServiceId) (run_id : ℕ) → ProcessEvent
  input_dropped : (service_id : ServiceId) (run_id : ℕ) → ProcessEvent

abbrev pub service_id_of : ProcessEvent → ServiceId
service_id_of (killed service_id run_id) = service_id
service_id_of (exited service_id run_id exit_code) = service_id
service_id_of (log_reader_finished service_id run_id) = service_id
service_id_of (healthy service_id run_id) = service_id
service_id_of (unhealthy service_id run_id) = service_id
service_id_of (input_dropped service_id run_id) = service_id

abbrev pub event_run_id : ProcessEvent → ℕ
event_run_id (killed service_id run_id) = run_id
event_run_id (exited service_id run_id exit_code) = run_id
event_run_id (log_reader_finished service_id run_id) = run_id
event_run_id (healthy service_id run_id) = run_id
event_run_id (unhealthy service_id run_id) = run_id
event_run_id (input_dropped service_id run_id) = run_id

-- `option == Some(run_id)`
abbrev pub is_run : Option ℕ → ℕ → Bool
is_run none run_id = false
is_run (some current) run_id = current == run_id

abbrev pub is_draining_run : ℕ → DrainingLogReader → Bool
is_draining_run run_id draining = draining.run_id == run_id

-- Whether an event may concern a run that is over.
abbrev pub concerns_past_run : ProcessEvent → ServiceRuntime → Bool
concerns_past_run (log_reader_finished service_id run_id) r =
    exists (is_draining_run run_id) r.draining_log_readers
concerns_past_run (input_dropped service_id run_id) r =
    if is_none (current_run_id r) then is_run r.last_run_id run_id else false
concerns_past_run _ r = false

unfoldable pub is_taken : ProcessEvent → ServiceRuntime → Bool
is_taken event r = is_run (current_run_id r) (event_run_id event) || concerns_past_run event r

-- `get_mut`, with what is done to the runtime.
unfoldable pub update : ServiceId → (ServiceRuntime → ServiceRuntime) → Session → Session
unfolding put
update id change s = map_or (lookup id s.runtimes) s (λ r. put id (change r) s)

-- Whether `mark_health` changed anything.
abbrev health_changed : ServiceId → Health → Session → Bool
health_changed id h s = map_or (lookup id s.runtimes) false (λ r. (mark_health h r).1)

unfoldable pub handle_health_event :
    Clock → ServiceMap → ServiceId → Health → ServiceEventKind → Session → Session × Bool
unfolding mark_health update sync append_service_event
handle_health_event clock services id h kind s =
    let synced = sync clock services id (update id (λ r. (mark_health h r).0) s) in
    (if health_changed id h s then append_service_event clock id kind synced else synced, true)

-- `backoff_until.and(backoff_delay)` of the service.
abbrev armed_delay : ServiceId → Session → Option ℕ
armed_delay id s = elim (lookup id s.runtimes) [
  | none ↦ none
  | some r ↦ elim r.restart.backoff_until [ none ↦ none | some until ↦ r.restart.backoff_delay ]
]

unfoldable pub handle_exit_event :
    Clock → ServiceMap → ServiceId → (run_id : ℕ) → ExitCode → Session → Session × Bool
unfolding finish_current_run update sync service_event call
handle_exit_event clock services id run_id exit_code s =
    let ended =
      map_or (lookup id services) s
        (λ service. update id (finish_current_run clock service.spec.restart exit_code) s) in
    let synced = sync clock services id ended in
    let event = service_event clock run_id ServiceEventKind.exited in
    let told = call (append_event id (record event { exit_code = some exit_code })) synced in
    (announce_backoff clock id run_id (armed_delay id told) told, true)

unfoldable pub record_input_drop : Clock → ServiceId → Session → Session
unfolding record_drop put append_service_event
record_input_drop clock id s = elim (lookup id s.runtimes) [
  | none ↦ s
  | some r ↦
      let (input_drops, reported) = record_drop clock.now r.input_drops in
      let recorded = put id (record r { input_drops = input_drops }) s in
      if reported
      then append_service_event clock id ServiceEventKind.input_dropped recorded
      else recorded
]

abbrev pub dispatch : Clock → ServiceMap → ProcessEvent → Session → Session × Bool
dispatch clock services (healthy id run_id) s =
    handle_health_event clock services id Health.healthy ServiceEventKind.healthy s
dispatch clock services (unhealthy id run_id) s =
    handle_health_event clock services id Health.unhealthy ServiceEventKind.unhealthy s
dispatch clock services (killed id run_id) s =
    (sync clock services id (update id mark_killed s), true)
dispatch clock services (exited id run_id exit_code) s =
    handle_exit_event clock services id run_id exit_code s
dispatch clock services (log_reader_finished id run_id) s =
    (update id (finish_log_reader run_id) s, false)
dispatch clock services (input_dropped id run_id) s = (record_input_drop clock id s, false)

-- The session, and whether a scheduling pass is needed.
unfoldable pub handle_event : Clock → ServiceMap → ProcessEvent → Session → Session × Bool
unfolding is_taken handle_health_event handle_exit_event record_input_drop update mark_killed
    finish_log_reader sync
handle_event clock services event s = elim (lookup (service_id_of event) s.runtimes) [
  | none ↦ (s, false)
  | some r ↦ if is_taken event r then dispatch clock services event s else (s, false)
]
