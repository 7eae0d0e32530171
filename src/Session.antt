-- ===== src/Session.antt =====
-- crates/micromux/src/scheduler.rs: what every handler of the scheduler works on, the runtimes of
-- the services and the session model that they are written to (`sync_model`, `service_event`).
use micromux.Prelude.{ℕ, List, [], ◌∷◌, ◌++◌, Option, none, some, map_or, lookup, insert}
use micromux.Model.{
  ServiceId, ServiceEvent, ServiceEventKind, WriterCall, write_snapshot, append_event,
}
use micromux.Service.{Service, ServiceMap}
use micromux.Runtime.{Clock, ServiceRuntime}
use micromux.Runtime.Methods.{run_generation}
use micromux.Runtime.Projection.{project_snapshot}

-- `HashMap<ServiceID, ServiceRuntime>`
abbrev pub Runtimes : Type 0
Runtimes = List (ServiceId × ServiceRuntime)

-- The writer is the list of the calls made on it, oldest first.
pub record Session : Type 0 where
  pub runtimes : Runtimes
  pub calls : List WriterCall

unfoldable pub call : WriterCall → Session → Session
call c s = record s { calls = s.calls ++ c ∷ [] }

unfoldable pub put : ServiceId → ServiceRuntime → Session → Session
put id r s = record s { runtimes = insert id r s.runtimes }

unfoldable pub sync_model : Clock → Service → ServiceRuntime → Session → Session
unfolding call project_snapshot
sync_model clock service r s =
    let (snapshot, started_at) = project_snapshot clock.now service r in
    call (write_snapshot snapshot started_at) s

unfoldable pub service_event : Clock → (run_generation : ℕ) → ServiceEventKind → ServiceEvent
service_event clock generation kind = record {
  seq = 0;
  at_unix_ms = map_or clock.unix_ms 0 (λ ms. ms);
  run_generation = generation;
  kind = kind;
  exit_code = none;
  pid = none;
  delay_ms = none;
  blocked_on = none;
}

-- `SchedulerRuntime::sync` and `append_event`
abbrev pub sync_both : Clock → Option Service → Option ServiceRuntime → Session → Session
sync_both clock (some service) (some r) s = sync_model clock service r s
sync_both clock _ _ s = s

unfoldable pub sync : Clock → ServiceMap → ServiceId → Session → Session
unfolding sync_model
sync clock services id s = sync_both clock (lookup id services) (lookup id s.runtimes) s

unfoldable pub append_service_event : Clock → ServiceId → ServiceEventKind → Session → Session
unfolding call service_event run_generation
append_service_event clock id kind s =
    let generation = map_or (lookup id s.runtimes) 0 run_generation in
    call (append_event id (service_event clock generation kind)) s
