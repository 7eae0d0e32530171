-- ===== src/Schedule/Start.antt =====
-- crates/micromux/src/scheduler/schedule.rs: the start of one service, and the record of what
-- holds it back.
use micromux.Prelude.{
  ℕ, ◌/◌, List, [], ◌∷◌, map, Bool, true, false, ◌&&◌, Option, none, some, not, if◌then◌else◌,
  lookup, text_eq,
}
use micromux.Restart.{RestartPolicy, on_failure, decrement_failure_restart}
use micromux.Model.{
  ServiceId, ExitCode, negsuc, ServiceEventKind, append_event, begin_run, clear_logs,
}
use micromux.Service.{Service, DependencySpec}
use micromux.Runtime.{Clock, LogReaderHandle, request_cancel, run_config_of, ServiceRuntime}
use micromux.Runtime.Methods.{
  is_zero_code, run_generation, mark_started, mark_starting, allocate_run_id,
}
use micromux.Runtime.Finish.{finish_failed_start}
use micromux.Session.{Session, call, put, sync_model, service_event}
use micromux.Schedule.{blocking_dependencies}

-- `pty::StartedPty`
pub record StartedPty : Type 0 where
  pub pid : Option ℕ
  pub log_reader : LogReaderHandle

abbrev pub Spawn : Type 0
Spawn = ServiceId → (run_id : ℕ) → Option StartedPty

abbrev failed_code : Option ExitCode → Bool
failed_code none = false
failed_code (some exit_code) = not (is_zero_code exit_code)

abbrev is_on_failure : RestartPolicy → Bool
is_on_failure (on_failure max_attempts) = true
is_on_failure _ = false

unfoldable pub decrement_failure_budget :
    Service → (explicit_start : Bool) → Option ExitCode → ServiceRuntime → ServiceRuntime
unfolding decrement_failure_restart
decrement_failure_budget service explicit_start exited_code r =
    if not explicit_start && (failed_code exited_code && is_on_failure service.spec.restart)
    then record r { restart = decrement_failure_restart service.spec.restart r.restart }
    else r

abbrev pub ids_eq : List ServiceId → List ServiceId → Bool
ids_eq [] [] = true
ids_eq (i ∷ is) (j ∷ js) = text_eq i j && ids_eq is js
ids_eq _ _ = false

abbrev pub blocked_by : List ServiceId → ServiceRuntime → ServiceRuntime
blocked_by ids r = record r { blocked_on = ids }

unfoldable pub record_dependency_block :
    Clock → ServiceId → Service → List DependencySpec → Session → Session
unfolding put call sync_model service_event run_generation
record_dependency_block clock id service blocked s = elim (lookup id s.runtimes) [
  | none ↦ s
  | some r ↦
      let blocked_on = map (λ dep. dep.service) blocked in
      if ids_eq r.blocked_on blocked_on
      then s
      else let held = blocked_by blocked_on r in
        let event = service_event clock (run_generation r) ServiceEventKind.dependency_blocked in
        call (append_event id (record event { blocked_on = some blocked_on }))
          (sync_model clock service held (put id held s))
]

abbrev pub is_blocked : ServiceRuntime → Bool
is_blocked r = elim r.blocked_on [ [] ↦ false | i ∷ is ↦ true ]

abbrev pub unblocked : ServiceRuntime → ServiceRuntime
unblocked r = record r { blocked_on = [] }

unfoldable pub clear_dependency_block : Clock → ServiceId → Service → Session → Session
unfolding put sync_model
clear_dependency_block clock id service s = elim (lookup id s.runtimes) [
  | none ↦ s
  | some r ↦
      if is_blocked r then sync_model clock service (unblocked r) (put id (unblocked r) s) else s
]

abbrev pub nanos_per_ms : ℕ
nanos_per_ms = 1_000_000

abbrev pub announce_backoff : Clock → ServiceId → (run_id : ℕ) → Option ℕ → Session → Session
announce_backoff clock id run_id none s = s
announce_backoff clock id run_id (some delay) s =
    let event = service_event clock run_id ServiceEventKind.backoff_scheduled in
    call (append_event id (record event { delay_ms = some (delay / nanos_per_ms) })) s

-- The two arms of `finish_service_start`, with the runtime that the session holds for the service.
unfoldable pub start_succeeded :
    Clock → ServiceId → Service → (run_id : ℕ) → StartedPty → ServiceRuntime → Session → Session
unfolding mark_started put call sync_model service_event
start_succeeded clock id service run_id started r s =
    let live =
      mark_started clock
        (record {
          run_id = run_id;
          pid = started.pid;
          terminate = false;
          log_reader = some started.log_reader;
          since = clock.now;
        })
        r in
    let event = service_event clock run_id ServiceEventKind.spawned in
    call (append_event id (record event { pid = started.pid }))
      (sync_model clock service live (put id live s))

unfoldable pub start_failed :
    Clock → ServiceId → Service → (run_id : ℕ) → ServiceRuntime → Session → Session
unfolding finish_failed_start put call sync_model service_event
start_failed clock id service run_id r s =
    let over = finish_failed_start clock service.spec.restart run_id (negsuc 0) r in
    let failed = service_event clock run_id ServiceEventKind.spawn_failed in
    let exited = service_event clock run_id ServiceEventKind.exited in
    announce_backoff clock id run_id over.restart.backoff_delay (
      call (append_event id (record exited { exit_code = some (negsuc 0) }))
        (call (append_event id failed) (sync_model clock service over (put id over s))))

unfoldable pub finish_service_start :
    Clock → ServiceId → Service → (run_id : ℕ) → Option StartedPty → Session → Session × Bool
unfolding start_succeeded start_failed
finish_service_start clock id service run_id result s = elim (lookup id s.runtimes) [
  | none ↦ (s, false)
  | some r ↦ elim result [
    | some started ↦ (start_succeeded clock id service run_id started r s, true)
    | none ↦ (start_failed clock id service run_id r s, false)
  ]
]

-- The runtime on which the spawn is tried, from the one found.
unfoldable pub prepare_start : Service → Option ExitCode → ServiceRuntime → ServiceRuntime
unfolding decrement_failure_budget request_cancel mark_starting run_config_of
prepare_start service exited_code r =
    let charged = decrement_failure_budget service r.start_requested exited_code r in
    mark_starting (record charged {
      blocked_on = [];
      start_requested = false;
      clear_logs_on_start = false;
      draining_log_readers = map request_cancel r.draining_log_readers;
      run_config = some (run_config_of service);
    })

abbrev pub announce_ready : Clock → ServiceId → ServiceRuntime → Session → Session
announce_ready clock id r s =
    if is_blocked r
    then call
        (append_event id (service_event clock (run_generation r) ServiceEventKind.dependency_ready))
        s
    else s

abbrev pub clear_if : Bool → ServiceId → Session → Session
clear_if wanted id s = if wanted then call (clear_logs id) s else s

unfoldable pub start_service_if_ready :
    Spawn → Clock → ServiceId → Service → Option ExitCode → Session → Session × Bool
unfolding finish_service_start prepare_start allocate_run_id put call sync_model service_event
    run_generation
start_service_if_ready spawn clock id service exited_code s =
    elim (blocking_dependencies s.runtimes service) [
      | dep ∷ deps ↦ (s, false)
      | [] ↦ elim (lookup id s.runtimes) [
        | none ↦ (s, false)
        | some r ↦
            let starting = prepare_start service exited_code r in
            let (numbered, run_id) = allocate_run_id starting in
            let announced = sync_model clock service starting (announce_ready clock id r s) in
            let begun = call (begin_run id run_id) (put id numbered announced) in
            finish_service_start clock id service run_id (spawn id run_id)
              (clear_if r.clear_logs_on_start id begun)
      ]
    ]
