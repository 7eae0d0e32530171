-- ===== src/Events/Effected.antt =====
-- crates/micromux/src/scheduler.rs: `handle_event` has the effect of the event.
use micromux.Prelude.{
  ℕ, ◌≡◌, refl, sym, ap, ◌∙◌, subst, ◌++◌, true, false, none, some, arith, ◌==◌, Bool-cases,
  Option-cases, inl, inr, lookup,
}
use micromux.Restart.{
  RestartTracker, RestartPolicy, always, unless_stopped, never, on_failure, apply_backoff,
  clear_backoff,
}
use micromux.Model.{ExitCode, Health}
use micromux.Service.{ServiceMap}
use micromux.Runtime.{Clock, DesiredState, RunningService, ServiceRuntime, stable}
use micromux.Runtime.Methods.{is_disabled_desire}
use micromux.Runtime.Finish.{
  finish_current_run, finish_run_state, finish_log_reader, will_auto_restart, parked,
}
use micromux.Session.{Session}
use micromux.Events.{
  ProcessEvent, killed, exited, log_reader_finished, healthy, unhealthy, input_dropped,
  service_id_of, handle_event,
}
use micromux.Events.Handled.{untouched, changed, after_event, IsUndefined, handle_event-Handled}
use micromux.Events.Effect.{
  IsCurrentRun, Concerns, state_ended, readers_ended, HasRestart, IsEnded, IsReleased, HasEffect,
  Effected, unknown, past, undefined, effected,
}
use micromux.Events.Concerning.{
  is_taken-Concerns, Concerns-is_taken, mark_killed_lem, mark_health_lem, record_drop-IsDropCounted,
  remove_reader-IsWithoutReader,
}

finish_log_reader_lem :
    (run_id : ℕ) (r : ServiceRuntime)
    → IsReleased run_id r.running (finish_log_reader run_id r).running
unfolding finish_log_reader
finish_log_reader_lem run_id r = elim (Option-cases r.running) [
  | inl stopped ↦ rw stopped refl
  | inr (live, e) ↦ elim (Bool-cases (live.run_id == run_id)) [
    | inl same ↦ rw e (inl (ground (arith, same), rw same))
    | inr other ↦ rw e (inr (ground (arith, other), rw other))
  ]
]

parked_lem :
    (clock : Clock) (live : RunningService)
    → parked clock live.run_id live.log_reader ≡ readers_ended clock.now live
parked_lem clock live = elim (Option-cases live.log_reader) [
  | inl absent ↦ rw absent
  | inr (handle, e) ↦ rw e
]

will_auto_restart_lem :
    (policy : RestartPolicy) (exit_code : ExitCode) (r s : ServiceRuntime)
    → r.restart ≡ s.restart
    → will_auto_restart policy exit_code r ≡ will_auto_restart policy exit_code s
unfolding will_auto_restart
will_auto_restart_lem always exit_code r s e = refl
will_auto_restart_lem unless_stopped exit_code r s e = refl
will_auto_restart_lem never exit_code r s e = refl
will_auto_restart_lem (on_failure max_attempts) exit_code r s e = rw e

disabled_lem :
    (desired : DesiredState) → is_disabled_desire desired ≡ true → desired ≡ DesiredState.disabled
disabled_lem DesiredState.enabled h = cc
disabled_lem DesiredState.disabled h = refl

enabled_lem :
    (desired : DesiredState) → is_disabled_desire desired ≡ false → desired ≡ DesiredState.enabled
enabled_lem DesiredState.enabled h = refl
enabled_lem DesiredState.disabled h = cc

-- The runtime after the end of the process's run, with a restart tracker.
abbrev ended_with :
    Clock
    → (run_id : ℕ) → ExitCode
    → RunningService
    → ServiceRuntime
    → RestartTracker
    → ServiceRuntime
ended_with clock run_id exit_code live r restart = record r {
  running = none;
  last_run_id = some run_id;
  last_exit_code = some exit_code;
  uptime_started_at = none;
  started_at_unix_ms = none;
  state = state_ended exit_code r.desired;
  draining_log_readers = r.draining_log_readers ++ readers_ended clock.now live;
  restart = restart;
}

ended_with-IsEnded :
    (clock : Clock) (policy : RestartPolicy) (run_id : ℕ) (exit_code : ExitCode)
    (r r' : ServiceRuntime) (live : RunningService) (restart : RestartTracker)
    → r.running ≡ some live
    → HasRestart clock.now policy exit_code live r restart
    → r' ≡ ended_with clock run_id exit_code live r restart
    → IsEnded clock policy run_id exit_code r r'
ended_with-IsEnded clock policy run_id exit_code r r' live restart e h ends =
    let own : r'.restart ≡ restart = ap (λ (q : ServiceRuntime). q.restart) ends in
    (
      live,
      e,
      subst (HasRestart clock.now policy exit_code live r) (sym own) h,
      ends ∙ ap (ended_with clock run_id exit_code live r) (sym own),
    )

finish_current_run-IsEnded :
    (clock : Clock) (policy : RestartPolicy) (run_id : ℕ) (exit_code : ExitCode)
    (r : ServiceRuntime)
    → IsCurrentRun run_id r
    → IsEnded clock policy run_id exit_code r (finish_current_run clock policy exit_code r)
unfolding finish_current_run finish_run_state clear_backoff
finish_current_run-IsEnded clock policy run_id exit_code r (live, e, same) =
    let cleared = record r.restart { backoff_until = none; backoff_delay = none } in
    let backed_off = apply_backoff clock.now (stable clock.now live) r.restart in
    let readers = parked_lem clock live in
    let over : ServiceRuntime = record r {
      running = none;
      draining_log_readers = r.draining_log_readers ++ parked clock live.run_id live.log_reader;
      last_run_id = some live.run_id;
      uptime_started_at = none;
      started_at_unix_ms = none;
      last_exit_code = some exit_code;
    } in
    let wanted = will_auto_restart_lem policy exit_code over r refl in
    let end = ended_with-IsEnded clock policy run_id exit_code r _ live in
    elim (Bool-cases (is_disabled_desire r.desired)) [
      | inl off ↦
          let desired = disabled_lem r.desired off in
          end cleared e (inr (inl desired, refl)) (rw (e, off, readers, same, desired) refl)
      | inr on ↦
          let desired = enabled_lem r.desired on in
          elim (Bool-cases r.start_requested) [
            | inl requested ↦
                end cleared e (inr (inr (inl requested), refl))
                  (rw (e, on, readers, same, desired, requested) refl)
            | inr none_requested ↦ elim (Bool-cases (will_auto_restart policy exit_code r)) [
              | inl again ↦
                  end backed_off e (inl (desired, none_requested, again, refl))
                    (rw (e, on, wanted ∙ again, none_requested, readers, same, desired) refl)
              | inr stays ↦
                  end cleared e (inr (inr (inr stays), refl))
                    (rw (e, on, wanted ∙ stays, none_requested, readers, same, desired) refl)
            ]
          ]
    ]

after_event-HasEffect :
    (clock : Clock) (services : ServiceMap) (event : ProcessEvent) (r : ServiceRuntime)
    → Concerns event r
    → ¬ IsUndefined services event
    → HasEffect clock services event r
        (after_event clock (lookup (service_id_of event) services) event r)
unfolding finish_log_reader
after_event-HasEffect clock services (killed id run_id) r own known = mark_killed_lem r
after_event-HasEffect clock services (healthy id run_id) r own known =
    mark_health_lem Health.healthy r
after_event-HasEffect clock services (unhealthy id run_id) r own known =
    mark_health_lem Health.unhealthy r
after_event-HasEffect clock services (input_dropped id run_id) r own known =
    (record_drop-IsDropCounted clock.now r.input_drops, refl)
after_event-HasEffect clock services (log_reader_finished id run_id) r own known = (
  finish_log_reader_lem run_id r,
  remove_reader-IsWithoutReader run_id r.draining_log_readers,
  refl,
)
after_event-HasEffect clock services (exited id run_id exit_code) r own known =
    elim (Option-cases (lookup id services)) [
      | inl absent ↦ absurd (known absent)
      | inr (service, e) ↦ (
        service,
        e,
        rw e (finish_current_run-IsEnded clock service.spec.restart run_id exit_code r own),
      )
    ]

-- Handling an event leaves the runtimes where its service has no runtime, where the event does not
-- concern that runtime (it is of another run than the current one, and neither the end of a log
-- reader that outlived its run nor input dropped when the last run was over), and on an exit where
-- the service is not defined. Otherwise it changes the runtime of its service in these fields, and
-- no other runtime: killed shows the state killed unless the service is to be disabled; a health
-- result shows in the state of a starting or running process; dropped input starts the interval of
-- the reports or is counted; the end of a log reader lets go of the run's reader; and an exit ends
-- the run, parks its reader until the grace is over, shows the exit, and arms a backoff exactly
-- where the service is to restart on its own.
pub handle_event-Effected :
    (clock : Clock) (services : ServiceMap) (event : ProcessEvent) (s : Session)
    → Effected clock services event s.runtimes (handle_event clock services event s).0.runtimes
handle_event-Effected clock services event s = elim (handle_event-Handled clock services event s) [
  | untouched (inl absent) e ↦ unknown absent e
  | untouched (inr (inl (r, held, stale))) e ↦
      past r held (λ own. ground (arith, stale, Concerns-is_taken event r own)) e
  | untouched (inr (inr absent)) e ↦ undefined absent e
  | changed r held taken known e ↦
      let own = is_taken-Concerns event r taken in
      effected r _ held own (after_event-HasEffect clock services event r own known) e
]
