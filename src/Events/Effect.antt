-- ===== src/Events/Effect.antt =====
-- crates/micromux/src/scheduler.rs: what `handle_event` does to the runtime of its service, in its
-- fields.
use micromux.Prelude.{
  ℕ, ◌+◌, ◌≡◌, List, [], ◌∷◌, ◌++◌, true, false, Option, none, some, ◌⊎◌, lookup, insert,
  saturating_add,
}
use micromux.Restart.{RestartPolicy, RestartTracker, apply_backoff}
use micromux.Model.{ExitCode, Health}
use micromux.Service.{Service, ServiceMap}
use micromux.Runtime.{
  Clock, DesiredState, State, RunningService, DrainingLogReader, ServiceRuntime, stable,
  post_exit_drain_grace,
}
use micromux.Runtime.Drops.{InputDropThrottle, input_drop_report_interval}
use micromux.Runtime.Finish.{will_auto_restart}
use micromux.Session.{Runtimes}
use micromux.Events.{
  ProcessEvent, killed, exited, log_reader_finished, healthy, unhealthy, input_dropped,
  service_id_of,
}
use micromux.Events.Handled.{IsUndefined}

-- The run is that of the service's process.
abbrev pub IsCurrentRun : ℕ → ServiceRuntime → Type 0
IsCurrentRun run_id r = (live : RunningService) × (r.running ≡ some live) × (live.run_id ≡ run_id)

abbrev pub HasReader : ℕ → List DrainingLogReader → Type 0
HasReader run_id [] = ⊥
HasReader run_id (draining ∷ rest) = (draining.run_id ≡ run_id) ⊎ HasReader run_id rest

-- The event is of the current run; or it is the end of a log reader that outlived its run, or
-- input dropped when the last run was over.
abbrev pub Concerns : ProcessEvent → ServiceRuntime → Type 0
Concerns (killed id run_id) r = IsCurrentRun run_id r
Concerns (exited id run_id exit_code) r = IsCurrentRun run_id r
Concerns (healthy id run_id) r = IsCurrentRun run_id r
Concerns (unhealthy id run_id) r = IsCurrentRun run_id r
Concerns (log_reader_finished id run_id) r =
    IsCurrentRun run_id r ⊎ HasReader run_id r.draining_log_readers
Concerns (input_dropped id run_id) r =
    IsCurrentRun run_id r ⊎ ((r.running ≡ none) × (r.last_run_id ≡ some run_id))

-- A service that is to be disabled is not shown as killed.
abbrev pub state_killed : DesiredState → State → State
state_killed DesiredState.enabled state = State.killed
state_killed DesiredState.disabled state = state

-- A result of the health check counts while a process starts or runs.
abbrev pub state_checked : Health → State → State
state_checked h State.starting = State.running (some h)
state_checked h (State.running before) = State.running (some h)
state_checked h state = state

abbrev pub state_ended : ExitCode → DesiredState → State
state_ended exit_code DesiredState.enabled = State.exited exit_code
state_ended exit_code DesiredState.disabled = State.disabled

-- The readers that are waited for after the end of a run: its own, until the grace is over.
abbrev pub readers_ended : (now : ℕ) → RunningService → List DrainingLogReader
readers_ended now live = elim live.log_reader [
  | none ↦ []
  | some handle ↦
      (record {
        run_id = live.run_id;
        handle = handle;
        cancel_at = some (now + post_exit_drain_grace);
      })
      ∷ []
]

-- A service that is to restart on its own backs off, and any other does not.
abbrev pub HasRestart :
    (now : ℕ) → RestartPolicy → ExitCode → RunningService → ServiceRuntime → RestartTracker → Type 0
HasRestart now policy exit_code live r restart =
    ((r.desired ≡ DesiredState.enabled)
      × (r.start_requested ≡ false)
      × (will_auto_restart policy exit_code r ≡ true)
      × (restart ≡ apply_backoff now (stable now live) r.restart))
    ⊎ (((r.desired ≡ DesiredState.disabled)
          ⊎ ((r.start_requested ≡ true) ⊎ (will_auto_restart policy exit_code r ≡ false)))
        × (restart ≡ record r.restart { backoff_until = none; backoff_delay = none }))

-- The end of the current run: the fields that are named change so, the others stay.
abbrev pub IsEnded :
    Clock → RestartPolicy → (run_id : ℕ) → ExitCode → ServiceRuntime → ServiceRuntime → Type 0
IsEnded clock policy run_id exit_code r r' =
    (live : RunningService) × (r.running ≡ some live)
    × HasRestart clock.now policy exit_code live r r'.restart
    × (r' ≡ record r {
      running = none;
      last_run_id = some run_id;
      last_exit_code = some exit_code;
      uptime_started_at = none;
      started_at_unix_ms = none;
      state = state_ended exit_code r.desired;
      draining_log_readers = r.draining_log_readers ++ readers_ended clock.now live;
      restart = r'.restart;
    })

-- The reader of the run is let go of, also if its process still runs.
abbrev pub IsReleased : ℕ → Option RunningService → Option RunningService → Type 0
IsReleased run_id none after = after ≡ none
IsReleased run_id (some live) after =
    ((live.run_id ≡ run_id) × (after ≡ some (record live { log_reader = none })))
    ⊎ (¬ (live.run_id ≡ run_id) × (after ≡ some live))

-- The first reader of the run is taken out, if there is one.
abbrev pub IsWithoutReader : ℕ → (readers after : List DrainingLogReader) → Type 0
IsWithoutReader run_id readers after =
    (¬ HasReader run_id readers × (after ≡ readers))
    ⊎ ((before : List DrainingLogReader) × (draining : DrainingLogReader) × (rest : List
          DrainingLogReader)
        × (readers ≡ before ++ draining ∷ rest)
        × (draining.run_id ≡ run_id)
        × ¬ HasReader run_id before
        × (after ≡ before ++ rest))

-- Dropped input is reported at once if no report is due, and counted otherwise.
abbrev pub IsDropCounted : (now : ℕ) → InputDropThrottle → InputDropThrottle → Type 0
IsDropCounted now t t' =
    ((t.report_at ≡ none) × (t' ≡ record t { report_at = some (now + input_drop_report_interval) }))
    ⊎ ((at : ℕ) × (t.report_at ≡ some at)
        × (t' ≡ record t { suppressed = saturating_add t.suppressed 1 }))

-- The runtime after an event that concerns it.
abbrev pub HasEffect : Clock → ServiceMap → ProcessEvent → ServiceRuntime → ServiceRuntime → Type 0
HasEffect clock services (killed id run_id) r r' =
    r' ≡ record r { state = state_killed r.desired r.state }
HasEffect clock services (exited id run_id exit_code) r r' =
    (service : Service) × (lookup id services ≡ some service)
    × IsEnded clock service.spec.restart run_id exit_code r r'
HasEffect clock services (healthy id run_id) r r' =
    r' ≡ record r { state = state_checked Health.healthy r.state }
HasEffect clock services (unhealthy id run_id) r r' =
    r' ≡ record r { state = state_checked Health.unhealthy r.state }
HasEffect clock services (log_reader_finished id run_id) r r' =
    IsReleased run_id r.running r'.running
    × IsWithoutReader run_id r.draining_log_readers r'.draining_log_readers
    × (r' ≡ record r { running = r'.running; draining_log_readers = r'.draining_log_readers })
HasEffect clock services (input_dropped id run_id) r r' =
    IsDropCounted clock.now r.input_drops r'.input_drops
    × (r' ≡ record r { input_drops = r'.input_drops })

-- What handling an event does: nothing where its service has no runtime, where the event does not
-- concern that, or on the exit of a process whose service is not defined; and otherwise the effect
-- of the event on the runtime of its service, and nothing on the others.
pub data Effected (clock : Clock) (services : ServiceMap) (event : ProcessEvent) (m : Runtimes)
    (m' : Runtimes) : Type 0 where
  unknown : lookup (service_id_of event) m ≡ none → m' ≡ m → Effected clock services event m m'
  past :
      (r : ServiceRuntime)
      → lookup (service_id_of event) m ≡ some r
      → ¬ Concerns event r
      → m' ≡ m
      → Effected clock services event m m'
  undefined : IsUndefined services event → m' ≡ m → Effected clock services event m m'
  effected :
      (r r' : ServiceRuntime)
      → lookup (service_id_of event) m ≡ some r
      → Concerns event r
      → HasEffect clock services event r r'
      → m' ≡ insert (service_id_of event) r' m
      → Effected clock services event m m'
