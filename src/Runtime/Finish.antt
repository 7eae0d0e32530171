-- ===== src/Runtime/Finish.antt =====
-- crates/micromux/src/scheduler.rs: the end of a run in `ServiceRuntime`, and its log reader.
use micromux.Prelude.{
  ℕ, ◌+◌, List, [], ◌∷◌, ◌++◌, map, Bool, true, false, Option, none, some, ltb, ◌==◌, if◌then◌else◌,
  map_or, is_none,
}
use micromux.Restart.{
  RestartPolicy, always, unless_stopped, never, on_failure, clear_backoff, apply_backoff,
  remaining_failure_restarts,
}
use micromux.Model.{ExitCode}
use micromux.Runtime.{
  Clock, State, RunningService, LogReaderHandle, stable, DrainingLogReader, cancel_if_due,
  ServiceRuntime, post_exit_drain_grace,
}
use micromux.Runtime.Methods.{is_disabled_desire, is_zero_code}

unfoldable pub will_auto_restart : RestartPolicy → ExitCode → ServiceRuntime → Bool
unfolding remaining_failure_restarts
will_auto_restart always exit_code r = true
will_auto_restart unless_stopped exit_code r = true
will_auto_restart never exit_code r = false
will_auto_restart (on_failure max_attempts) exit_code r =
    if is_zero_code exit_code
    then false
    else if is_none max_attempts
    then true
    else map_or (remaining_failure_restarts (on_failure max_attempts) r.restart) false
        (λ remaining. ltb 0 remaining)

unfoldable pub finish_run_state :
    Clock → RestartPolicy → ExitCode → Option ℕ → (stable : Bool) → ServiceRuntime → ServiceRuntime
unfolding will_auto_restart clear_backoff apply_backoff
finish_run_state clock policy exit_code finished_run_id stable r =
    let s = record r {
      last_run_id = elim finished_run_id [ some run_id ↦ some run_id | none ↦ r.last_run_id ];
      uptime_started_at = none;
      started_at_unix_ms = none;
      last_exit_code = some exit_code;
    } in
    if is_disabled_desire r.desired
    then record s { state = State.disabled; restart = clear_backoff r.restart }
    else record s {
      state = State.exited exit_code;
      restart =
          if r.start_requested
          then clear_backoff r.restart
          else if will_auto_restart policy exit_code s
          then apply_backoff clock.now stable r.restart
          else clear_backoff r.restart;
    }

-- The handle of a finished run's reader is kept until the reader ends.
abbrev pub parked : Clock → ℕ → Option LogReaderHandle → List DrainingLogReader
parked clock run_id none = []
parked clock run_id (some handle) =
    record {
      run_id = run_id;
      handle = handle;
      cancel_at = some (clock.now + post_exit_drain_grace);
    }
    ∷ []

unfoldable pub finish_current_run :
    Clock → RestartPolicy → ExitCode → ServiceRuntime → ServiceRuntime
unfolding finish_run_state stable
finish_current_run clock policy exit_code r = elim r.running [
  | none ↦ finish_run_state clock policy exit_code none false r
  | some live ↦
      finish_run_state clock policy exit_code (some live.run_id) (stable clock.now live) (record r {
        running = none;
        draining_log_readers = r.draining_log_readers ++ parked clock live.run_id live.log_reader;
      })
]

unfoldable pub cancel_due_drains : (now : ℕ) → ServiceRuntime → ServiceRuntime
unfolding cancel_if_due
cancel_due_drains now r = record r {
  draining_log_readers = map (cancel_if_due now) r.draining_log_readers;
}

abbrev released : ℕ → Option RunningService → Option RunningService
released run_id none = none
released run_id (some live) =
    some (if live.run_id == run_id then record live { log_reader = none } else live)

-- `position` and `remove`: the first reader of the run goes.
unfoldable pub remove_reader : ℕ → List DrainingLogReader → List DrainingLogReader
remove_reader run_id [] = []
remove_reader run_id (draining ∷ rest) =
    if draining.run_id == run_id then rest else draining ∷ remove_reader run_id rest

unfoldable pub finish_log_reader : ℕ → ServiceRuntime → ServiceRuntime
unfolding remove_reader
finish_log_reader run_id r = record r {
  running = released run_id r.running;
  draining_log_readers = remove_reader run_id r.draining_log_readers;
}

unfoldable pub finish_failed_start :
    Clock → RestartPolicy → ℕ → ExitCode → ServiceRuntime → ServiceRuntime
unfolding finish_run_state
finish_failed_start clock policy run_id exit_code r =
    finish_run_state clock policy exit_code (some run_id) false r
