-- ===== src/Scheduler/Reachable.antt =====
-- crates/micromux/src/scheduler.rs: the states that the main loop gets to.
use micromux.Prelude.{ℕ}
use micromux.Service.{ServiceMap}
use micromux.Runtime.Methods.{cancel_running}
use micromux.Runtime.Finish.{cancel_due_drains}
use micromux.Runtime.Invariant.{cancel_due_drains-IsValid}
use micromux.Schedule.Valid.{AreValid, schedule_ready-AreValid}
use micromux.Events.Valid.{handle_event-AreValid}
use micromux.Timers.{
  expired_ids, expire_due, cancel_all_due_drains, cancel_all_running, report_due_input_drops,
  take_due_of,
}
use micromux.Timers.Rearmed.{report_all-runtimes}
use micromux.Commands.{DynamicServicesPolicy}
use micromux.Scheduler.{
  Loop, Step, scheduled, reported, expired, drained, dropped, disabled, stopped, renewed, shut_down,
  Reach, at_start, next, new_loop,
}
use micromux.Scheduler.Kept.{
  new_runtimes-AreValid, each-keeps, expire_each-AreValid, apply_disable-AreValid,
  stop_dynamic-AreValid, renew_dynamic-AreValid, dropped-IsValid, cancelled-IsValid,
}

-- One arm of the main loop keeps every runtime well formed.
Step-AreValid :
    (policy : DynamicServicesPolicy) (latest : ℕ) (l l' : Loop)
    → Step policy latest l l'
    → AreValid l.session.runtimes
    → AreValid l'.session.runtimes
unfolding expire_due cancel_all_due_drains report_due_input_drops cancel_all_running
Step-AreValid policy latest l l' (scheduled spawn clocks fuel round e) v =
    schedule_ready-AreValid spawn clocks l.services fuel round l.session v e
Step-AreValid policy latest l l' (reported clock event) v =
    handle_event-AreValid clock l.services event l.session v
Step-AreValid policy latest l l' (expired clock) v =
    expire_each-AreValid clock l.services (expired_ids clock.now l.session.runtimes) l.session v
Step-AreValid policy latest l l' (drained now) v =
    each-keeps (cancel_due_drains now) l.session.runtimes (cancel_due_drains-IsValid now) v
Step-AreValid policy latest l l' (dropped clock) v =
    rw (report_all-runtimes clock _ _)
      (each-keeps (take_due_of clock.now) l.session.runtimes (dropped-IsValid clock.now) v)
Step-AreValid policy latest l l' (disabled clock id) v =
    apply_disable-AreValid clock l.services id l.session v
Step-AreValid policy latest l l' (stopped clock id) v =
    stop_dynamic-AreValid policy clock l.services id l.session v
Step-AreValid policy latest l l' (renewed clock id expected_revision expires_after) v =
    renew_dynamic-AreValid policy latest clock id expected_revision expires_after l.services
      l.session v
Step-AreValid policy latest l l' shut_down v =
    each-keeps (λ r. record r { running = cancel_running r.running }) l.session.runtimes
      cancelled-IsValid v

-- From the start of a session, whatever the main loop answers in whatever order (scheduling passes,
-- process events, timers, disables, stops and renewals, the shutdown), every runtime is well
-- formed.
pub Reach-AreValid :
    (policy : DynamicServicesPolicy) (latest : ℕ) (services : ServiceMap) (l : Loop)
    → Reach policy latest services l
    → AreValid l.session.runtimes
unfolding new_loop
Reach-AreValid policy latest services l at_start = new_runtimes-AreValid services
Reach-AreValid policy latest services l (next {l = before} reach step) =
    Step-AreValid policy latest before l step (Reach-AreValid policy latest services before reach)
