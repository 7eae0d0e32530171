-- ===== src/Runtime/Invariant.antt =====
-- crates/micromux/src/scheduler.rs: the invariant of a runtime, and the methods.
use micromux.Prelude.{ℕ, ◌≤◌, ◌≡◌, Bool, true, false, none, arith, map_or, is_some}
use micromux.Restart.{
  RestartPolicy, RestartTracker, restart_backoff_base, restart_backoff_max, new_tracker,
  apply_backoff,
}
use micromux.Model.{ExitCode, Health}
use micromux.Service.{StartupMode}
use micromux.Runtime.{Clock, State, ServiceRuntime, new_runtime, stable}
use micromux.Runtime.Methods.{
  is_disabled_desire, is_disabled_state, current_run_id, request_restart, request_enable, disable,
  mark_health, mark_killed, reconfigure,
}
use micromux.Runtime.Finish.{finish_current_run, finish_log_reader, cancel_due_drains}

-- The states of a runtime that holds a process, and of one that holds none.
abbrev pub has_process : State → Bool
has_process (State.running h) = true
has_process State.killed = true
has_process State.disabled = true
has_process _ = false

abbrev pub has_no_process : State → Bool
has_no_process State.pending = true
has_no_process (State.exited exit_code) = true
has_no_process State.disabled = true
has_no_process _ = false

-- A backoff is armed with both its deadline and its delay, and the delay is in the range of the
-- schedule.
pub record IsArmed (t : RestartTracker) : Type 0 where
  pub paired : is_some t.backoff_until ≡ is_some t.backoff_delay
  pub least : restart_backoff_base ≤ map_or t.backoff_delay restart_backoff_base (λ d. d)
  pub most : map_or t.backoff_delay restart_backoff_base (λ d. d) ≤ restart_backoff_max

pub record IsValid (r : ServiceRuntime) : Type 0 where
  -- The state is `Disabled` exactly while the service is to be disabled.
  pub disabled_iff : is_disabled_state r.state ≡ is_disabled_desire r.desired
  pub with_process : is_some r.running ≡ true → has_process r.state ≡ true
  pub without_process : is_some r.running ≡ false → has_no_process r.state ≡ true
  -- `uptime_started_at` is set exactly while a process runs.
  pub uptime_iff : is_some r.uptime_started_at ≡ is_some r.running
  pub wall_clock : is_some r.running ≡ false → r.started_at_unix_ms ≡ none
  -- A disabled service waits for no start.
  pub idle : is_disabled_desire r.desired ≡ true → r.start_requested ≡ false
  pub unarmed : is_disabled_desire r.desired ≡ true → r.restart.backoff_until ≡ none
  pub armed : IsArmed r.restart
  -- The process has the run id that was given out last.
  pub newest : map_or (current_run_id r) r.next_run_id (λ i. i) ≡ r.next_run_id

new_tracker-IsArmed : (policy : RestartPolicy) → IsArmed (new_tracker policy)
unfolding new_tracker
new_tracker-IsArmed policy = ground arith

pub new_runtime-IsValid :
    (policy : RestartPolicy) (mode : StartupMode) → IsValid (new_runtime policy mode)
unfolding new_runtime
new_runtime-IsValid policy StartupMode.enabled = ground arith
new_runtime-IsValid policy StartupMode.disabled = ground arith

pub request_restart-IsValid : (r : ServiceRuntime) → IsValid r → IsValid (request_restart r)
unfolding request_restart
request_restart-IsValid r v = ground arith

pub request_enable-IsValid : (r : ServiceRuntime) → IsValid r → IsValid (request_enable r)
unfolding request_enable
request_enable-IsValid r v = ground arith

pub disable-IsValid : (r : ServiceRuntime) → IsValid r → IsValid (disable r)
unfolding disable
disable-IsValid r v = ground arith

-- A health result changes only the state of a service that holds a process.
pub mark_health-IsValid :
    (h : Health) (r : ServiceRuntime)
    → is_some r.running ≡ true
    → IsValid r
    → IsValid (mark_health h r).0
unfolding mark_health
mark_health-IsValid h r live v = ground arith

pub mark_killed-IsValid :
    (r : ServiceRuntime) → is_some r.running ≡ true → IsValid r → IsValid (mark_killed r)
unfolding mark_killed
mark_killed-IsValid r live v = ground arith

apply_backoff-IsArmed :
    (now : ℕ) (stable : Bool) (t : RestartTracker)
    → IsArmed t
    → IsArmed (apply_backoff now stable t)
unfolding apply_backoff
apply_backoff-IsArmed now stable t a = ground arith

pub finish_current_run-IsValid :
    (clock : Clock) (policy : RestartPolicy) (exit_code : ExitCode) (r : ServiceRuntime)
    → is_some r.running ≡ true
    → IsValid r
    → IsValid (finish_current_run clock policy exit_code r)
unfolding finish_current_run
finish_current_run-IsValid clock policy exit_code r live v = ground arith

pub finish_log_reader-IsValid :
    (run_id : ℕ) (r : ServiceRuntime) → IsValid r → IsValid (finish_log_reader run_id r)
unfolding finish_log_reader
finish_log_reader-IsValid run_id r v = ground arith

pub cancel_due_drains-IsValid :
    (now : ℕ) (r : ServiceRuntime) → IsValid r → IsValid (cancel_due_drains now r)
unfolding cancel_due_drains
cancel_due_drains-IsValid now r v = ground arith

pub reconfigure-IsValid :
    (policy : RestartPolicy) (r : ServiceRuntime) → IsValid r → IsValid (reconfigure policy r)
unfolding reconfigure
reconfigure-IsValid policy r v = ground arith
