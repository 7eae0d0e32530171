-- ===== src/Timers/Examples.antt =====
-- A lease that is over, and a backoff whose end was missed.
use micromux.Prelude.{◌≡◌, refl, [], ◌∷◌, true, false, none, some, ltb, map_or, lookup, arith}
use micromux.Restart.{always}
use micromux.Model.{pos}
use micromux.Service.{StartupMode}
use micromux.Runtime.{State, ServiceRuntime, new_runtime}
use micromux.Runtime.Finish.{will_auto_restart}
use micromux.Runtime.Invariant.{IsValid}
use micromux.Runtime.Examples.{service_named, clock_at, live_runtime}
use micromux.Session.{Runtimes, Session}
use micromux.Schedule.{should_consider_start}
use micromux.Schedule.Startable.{is_consider}
use micromux.Schedule.Valid.{AreValid}
use micromux.Timers.{
  next_backoff, next_drain_deadline, next_expiry, next_input_drop_report, cancel_all_due_drains,
  report_due_input_drops, expire_due, has_due_auto_restart,
}
use micromux.Timers.Rearmed.{cancel_all_due_drains-later, report_due_input_drops-later}
use micromux.Timers.Over.{IsAfterExpiry}
use micromux.Timers.Expired.{expire_due-retires}
use micromux.Timers.Deadlines.{next_backoff-misses}

abbrev leased : ServiceRuntime
leased = record live_runtime {
  expires_at = some 40;
  input_drops = record { report_at = some 30; suppressed = 2 };
  draining_log_readers =
      (record { run_id = 0; handle = record { cancelled = false }; cancel_at = some 20 }) ∷ [];
}

leased-IsValid : IsValid leased
unfolding new_runtime
leased-IsValid = ground arith

abbrev busy : Session
busy = record { runtimes = ("web", leased) ∷ []; calls = [] }

expire_due-retires_example :
    let after = (expire_due (clock_at 50) (("web", service_named "web") ∷ []) busy).0.runtimes in
    IsAfterExpiry (clock_at 50) busy.runtimes after
    × ((map_or (next_expiry after) true (ltb 50) ≡ true) × AreValid after)
expire_due-retires_example =
    expire_due-retires (clock_at 50) (("web", service_named "web") ∷ []) busy (tt, tt)
      (leased-IsValid, tt)

cancel_all_due_drains-later_example :
    map_or (next_drain_deadline (cancel_all_due_drains 50 busy).runtimes) true (ltb 50) ≡ true
cancel_all_due_drains-later_example = cancel_all_due_drains-later 50 busy

report_due_input_drops-later_example :
    map_or
      (next_input_drop_report (report_due_input_drops (clock_at 50) busy).runtimes)
      true
      (ltb 50)
    ≡ true
report_due_input_drops-later_example = report_due_input_drops-later (clock_at 50) busy

abbrev waiting : ServiceRuntime
waiting = record (new_runtime always StartupMode.enabled) {
  state = State.exited (pos 1);
  restart = record {
    backoff_until = some 40;
    backoff_delay = some 250_000_000;
    on_failure_max = none;
    on_failure_remaining = none;
  };
}

abbrev missed : Runtimes
missed = ("web", waiting) ∷ []

next_backoff-misses_example :
    (next_backoff 50 missed ≡ none)
    × ((is_consider (should_consider_start 50 missed "web" (service_named "web")) ≡ true)
        × (has_due_auto_restart 50 (("web", service_named "web") ∷ []) missed ≡ true))
unfolding lookup new_runtime will_auto_restart
next_backoff-misses_example =
    next_backoff-misses 50 "web" (service_named "web") waiting missed refl (refl, tt) refl
