-- ===== src/Runtime.antt =====
-- crates/micromux/src/scheduler.rs: `ServiceRuntime`, the state machine of one service, with
-- `State` and `RunId` of crates/micromux/src/scheduler/types.rs.
-- A handle shared with a task is what the scheduler did to it: a cancellation token is whether it
-- was cancelled. Instants are numbers of nanoseconds, and a `Clock` holds what one operation reads
-- of the three clocks.
pub mod Drops
pub mod Methods
pub mod Finish
pub mod Reports
pub mod Projection
pub mod Invariant
pub mod Shown
pub mod Examples
use micromux.Prelude.{
  ℕ, ◌+◌, List, [], ◌∷◌, ◌++◌, map, String, Bool, true, false, not, ◌&&◌, ◌||◌, Option, none, some,
  ltb, leb, ◌==◌, if◌then◌else◌, map_or, is_some, is_none, checked_add, saturating_sub,
}
use micromux.Restart.{
  RestartPolicy, always, unless_stopped, never, on_failure, RestartTracker, new_tracker,
  reconfigure_tracker, clear_backoff, reset_failure_budget, apply_backoff,
  remaining_failure_restarts, restart_backoff_reset,
}
use micromux.Model.{ServiceId, ExitCode, pos, negsuc, Health, RetiredReason, HealthcheckConfig}
use micromux.Service.{Service, StartupMode, argv, working_dir_display, healthcheck_config}
use micromux.Runtime.Drops.{InputDropThrottle, no_drops}

abbrev pub post_exit_drain_grace : ℕ
post_exit_drain_grace = 5_000_000_000

pub record Clock : Type 0 where
  -- `tokio::time::Instant::now()`
  pub now : ℕ
  -- `std::time::Instant::now()`
  pub std_now : ℕ
  -- `unix_now_ms()`
  pub unix_ms : Option ℕ

pub data DesiredState : Type 0 where
  enabled disabled : DesiredState

pub data State : Type 0 where
  pending starting : State
  running : (health : Option Health) → State
  disabled : State
  exited : (exit_code : ExitCode) → State
  killed : State

-- `pty::LogReaderHandle`
pub record LogReaderHandle : Type 0 where
  pub cancelled : Bool

-- The PTY handles are left out: the scheduler passes input and sizes on to them, and reads nothing.
pub record RunningService : Type 0 where
  pub run_id : ℕ
  pub pid : Option ℕ
  pub terminate : Bool
  pub log_reader : Option LogReaderHandle
  pub since : ℕ

unfoldable pub cancel : RunningService → RunningService
cancel live = record live { terminate = true }

unfoldable pub stable : (now : ℕ) → RunningService → Bool
stable now live = leb restart_backoff_reset (saturating_sub now live.since)

pub record DrainingLogReader : Type 0 where
  pub run_id : ℕ
  pub handle : LogReaderHandle
  pub cancel_at : Option ℕ

unfoldable pub request_cancel : DrainingLogReader → DrainingLogReader
request_cancel draining =
    if is_some draining.cancel_at
    then record draining { handle = record { cancelled = true }; cancel_at = none }
    else draining

unfoldable pub cancel_if_due : (now : ℕ) → DrainingLogReader → DrainingLogReader
unfolding request_cancel
cancel_if_due now draining =
    if map_or draining.cancel_at true (λ cancel_at. ltb now cancel_at)
    then draining
    else request_cancel draining

pub record RunConfig : Type 0 where
  pub command : List String
  pub working_dir : Option String
  pub advertised_ports : List ℕ
  pub healthcheck : Option HealthcheckConfig
  pub stop_grace_period : ℕ

abbrev optional_healthcheck : Service → Option HealthcheckConfig
optional_healthcheck service = elim service.spec.healthcheck [
  | none ↦ none
  | some spec ↦ some (healthcheck_config spec)
]

unfoldable pub run_config_of : Service → RunConfig
unfolding argv working_dir_display healthcheck_config
run_config_of service = record {
  command = argv service;
  working_dir = working_dir_display service;
  advertised_ports = service.spec.ports;
  healthcheck = optional_healthcheck service;
  stop_grace_period = service.spec.stop_grace_period;
}

pub record ServiceRuntime : Type 0 where
  pub desired : DesiredState
  pub start_requested : Bool
  pub clear_logs_on_start : Bool
  pub next_run_id : ℕ
  pub running : Option RunningService
  pub restart : RestartTracker
  pub state : State
  pub last_run_id : Option ℕ
  pub uptime_started_at : Option ℕ
  pub started_at_unix_ms : Option ℕ
  pub last_exit_code : Option ExitCode
  pub run_config : Option RunConfig
  pub draining_log_readers : List DrainingLogReader
  pub retired : Option RetiredReason
  pub retired_at_unix_ms : Option ℕ
  pub expires_at : Option ℕ
  pub blocked_on : List ServiceId
  pub input_drops : InputDropThrottle

abbrev initial_desired : StartupMode → DesiredState
initial_desired StartupMode.enabled = DesiredState.enabled
initial_desired StartupMode.disabled = DesiredState.disabled

abbrev initial_state : DesiredState → State
initial_state DesiredState.enabled = pending
initial_state DesiredState.disabled = State.disabled

unfoldable pub new_runtime : RestartPolicy → StartupMode → ServiceRuntime
unfolding new_tracker
new_runtime policy startup_mode = record {
  desired = initial_desired startup_mode;
  start_requested = false;
  clear_logs_on_start = false;
  next_run_id = 0;
  running = none;
  restart = new_tracker policy;
  state = initial_state (initial_desired startup_mode);
  last_run_id = none;
  uptime_started_at = none;
  started_at_unix_ms = none;
  last_exit_code = none;
  run_config = none;
  draining_log_readers = [];
  retired = none;
  retired_at_unix_ms = none;
  expires_at = none;
  blocked_on = [];
  input_drops = no_drops;
}
