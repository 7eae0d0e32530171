-- ===== src/Runtime/Methods.antt =====
-- crates/micromux/src/scheduler.rs: the methods of `ServiceRuntime`. A method that takes `&mut
-- self` returns the new state.
use micromux.Prelude.{
  ℕ, Bool, true, false, not, ◌&&◌, ◌||◌, Option, none, some, ◌==◌, if◌then◌else◌, map_or, is_some,
  is_none, checked_add,
}
use micromux.Restart.{RestartPolicy, reconfigure_tracker, clear_backoff, reset_failure_budget}
use micromux.Model.{ExitCode, pos, negsuc, Health}
use micromux.Runtime.{Clock, DesiredState, State, RunningService, cancel, ServiceRuntime}
use micromux.Runtime.Drops.{no_drops}

abbrev pub is_disabled_desire : DesiredState → Bool
is_disabled_desire DesiredState.disabled = true
is_disabled_desire DesiredState.enabled = false

abbrev pub is_disabled_state : State → Bool
is_disabled_state State.disabled = true
is_disabled_state _ = false

abbrev pub is_killed_state : State → Bool
is_killed_state State.killed = true
is_killed_state _ = false

abbrev pub is_zero_code : ExitCode → Bool
is_zero_code (pos n) = n == 0
is_zero_code (negsuc n) = false

abbrev pub health_eq : Health → Health → Bool
health_eq Health.healthy Health.healthy = true
health_eq Health.unhealthy Health.unhealthy = true
health_eq Health.unknown Health.unknown = true
health_eq _ _ = false

unfoldable pub reconfigure : RestartPolicy → ServiceRuntime → ServiceRuntime
unfolding reconfigure_tracker
reconfigure policy r = record r { restart = reconfigure_tracker policy r.restart }

abbrev pub is_live : ServiceRuntime → Bool
is_live r = is_none r.retired

abbrev pub is_retired : ServiceRuntime → Bool
is_retired r = is_some r.retired

abbrev pub run_id_of : Option RunningService → Option ℕ
run_id_of none = none
run_id_of (some live) = some live.run_id

abbrev pub current_run_id : ServiceRuntime → Option ℕ
current_run_id r = run_id_of r.running

unfoldable pub run_generation : ServiceRuntime → ℕ
run_generation r = elim (current_run_id r) [
  | some run_id ↦ run_id
  | none ↦ map_or r.last_run_id 0 (λ run_id. run_id)
]

unfoldable pub mark_started : Clock → RunningService → ServiceRuntime → ServiceRuntime
mark_started clock live r = record r {
  uptime_started_at = some clock.std_now;
  started_at_unix_ms = clock.unix_ms;
  running = some live;
  state = State.running none;
  input_drops = no_drops;
}

unfoldable pub mark_starting : ServiceRuntime → ServiceRuntime
mark_starting r = record r { state = State.starting }

-- Whether the state is `Running { health: Some(health) }`, and whether a result is taken.
abbrev pub has_health : State → Health → Bool
has_health (State.running (some current)) health = health_eq current health
has_health _ h = false

abbrev pub takes_health : State → Bool
takes_health (State.running h) = true
takes_health State.starting = true
takes_health _ = false

unfoldable pub mark_health : Health → ServiceRuntime → ServiceRuntime × Bool
mark_health h r =
    if has_health r.state h
    then (r, false)
    else if takes_health r.state
    then (record r { state = State.running (some h) }, true)
    else (r, false)

unfoldable pub mark_killed : ServiceRuntime → ServiceRuntime
mark_killed r = if is_disabled_desire r.desired then r else record r { state = State.killed }

unfoldable pub allocate_run_id : ServiceRuntime → ServiceRuntime × ℕ
allocate_run_id r =
    let next = map_or (checked_add r.next_run_id 1) 1 (λ n. n) in
    (record r { next_run_id = next }, next)

-- `if let Some(running) = &mut self.running { running.cancel(); … }`
abbrev pub cancel_running : Option RunningService → Option RunningService
cancel_running none = none
cancel_running (some live) = some (cancel live)

-- `Disabled` without a process becomes `Pending`, and a live process is being killed.
abbrev pub requested_state : State → Option RunningService → State
requested_state state (some live) = State.killed
requested_state State.disabled none = State.pending
requested_state state none = state

unfoldable pub request_restart : ServiceRuntime → ServiceRuntime
unfolding reset_failure_budget clear_backoff cancel
request_restart r = record r {
  desired = DesiredState.enabled;
  start_requested = true;
  clear_logs_on_start = true;
  restart = reset_failure_budget (clear_backoff r.restart);
  state = requested_state r.state r.running;
  running = cancel_running r.running;
}

unfoldable pub request_enable : ServiceRuntime → ServiceRuntime
unfolding reset_failure_budget clear_backoff cancel
request_enable r =
    let s = record r {
      desired = DesiredState.enabled;
      restart = reset_failure_budget (clear_backoff r.restart);
    } in
    if is_some r.running && not (is_disabled_state r.state || is_killed_state r.state)
    then s
    else record s {
      start_requested = true;
      clear_logs_on_start = false;
      state = requested_state r.state r.running;
      running = cancel_running r.running;
    }

unfoldable pub disable : ServiceRuntime → ServiceRuntime
unfolding clear_backoff cancel
disable r = record r {
  desired = DesiredState.disabled;
  start_requested = false;
  clear_logs_on_start = false;
  restart = clear_backoff r.restart;
  state = State.disabled;
  running = cancel_running r.running;
}
