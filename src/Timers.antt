-- ===== src/Timers.antt =====
-- crates/micromux/src/scheduler.rs: the deadlines that the scheduler's main loop waits for, and
-- what it does when one has come. The order in which a `HashMap` is walked is that of the list.
pub mod Rearmed
pub mod Over
pub mod Expired
pub mod Deadlines
mod Examples
use micromux.Prelude.{
  ℕ, List, [], ◌∷◌, ◌++◌, map, Bool, true, false, ◌||◌, ◌&&◌, Option, none, some, ltb, leb,
  if◌then◌else◌, map_or, is_some, is_none, lookup, keep, exists, filter_map, least, length,
}
use micromux.Model.{ServiceId, RetiredReason, ServiceEventKind}
use micromux.Service.{Service, ServiceMap}
use micromux.Runtime.{Clock, State, RunningService, DrainingLogReader, ServiceRuntime}
use micromux.Runtime.Drops.{take_due}
use micromux.Runtime.Methods.{is_disabled_desire, is_live, disable, cancel_running}
use micromux.Runtime.Finish.{cancel_due_drains, will_auto_restart}
use micromux.Session.{Runtimes, Session, sync, append_service_event}
use micromux.Events.{update}

abbrev later_than : ℕ → ℕ → Bool
later_than now deadline = ltb now deadline

unfoldable pub next_backoff : (now : ℕ) → Runtimes → Option ℕ
next_backoff now m =
    least (
      keep (ltb now) (filter_map (λ (e : ServiceId × ServiceRuntime). e.1.restart.backoff_until) m))

abbrev pub expiry_of : ServiceRuntime → Option ℕ
expiry_of r = if is_live r then r.expires_at else none

unfoldable pub next_expiry : Runtimes → Option ℕ
next_expiry m = least (filter_map (λ (e : ServiceId × ServiceRuntime). expiry_of e.1) m)

-- `flat_map` over the runtimes' readers.
abbrev pub drain_deadlines : Runtimes → List ℕ
drain_deadlines [] = []
drain_deadlines ((id, r) ∷ m) =
    filter_map (λ (d : DrainingLogReader). d.cancel_at) r.draining_log_readers ++ drain_deadlines m

unfoldable pub next_drain_deadline : Runtimes → Option ℕ
next_drain_deadline m = least (drain_deadlines m)

unfoldable pub next_input_drop_report : Runtimes → Option ℕ
next_input_drop_report m =
    least (filter_map (λ (e : ServiceId × ServiceRuntime). e.1.input_drops.report_at) m)

-- `for (service_id, runtime) in &mut self.services`
abbrev pub each : (ServiceRuntime → ServiceRuntime) → Runtimes → Runtimes
each change [] = []
each change ((id, r) ∷ m) = (id, change r) ∷ each change m

-- `SchedulerRuntime::cancel_due_drains`
unfoldable pub cancel_all_due_drains : (now : ℕ) → Session → Session
unfolding cancel_due_drains
cancel_all_due_drains now s = record s { runtimes = each (cancel_due_drains now) s.runtimes }

unfoldable pub cancel_all_running : Session → Session
cancel_all_running s = record s {
  runtimes = each (λ r. record r { running = cancel_running r.running }) s.runtimes;
}

unfoldable pub running_count : Runtimes → ℕ
running_count m = length (keep (λ (e : ServiceId × ServiceRuntime). is_some e.1.running) m)

abbrev pub take_due_of : (now : ℕ) → ServiceRuntime → ServiceRuntime
take_due_of now r = record r { input_drops = (take_due now r.input_drops).0 }

-- The ids with a due report.
abbrev due_reports : (now : ℕ) → Runtimes → List ServiceId
due_reports now [] = []
due_reports now ((id, r) ∷ m) =
    if is_some (take_due now r.input_drops).1 then id ∷ due_reports now m else due_reports now m

abbrev pub report_all : Clock → List ServiceId → Session → Session
report_all clock [] s = s
report_all clock (id ∷ ids) s =
    report_all clock ids (append_service_event clock id ServiceEventKind.input_dropped s)

unfoldable pub report_due_input_drops : Clock → Session → Session
unfolding append_service_event take_due
report_due_input_drops clock s =
    report_all clock (due_reports clock.now s.runtimes)
      (record s { runtimes = each (take_due_of clock.now) s.runtimes })

abbrev pub has_expired : (now : ℕ) → ServiceRuntime → Bool
has_expired now r = is_live r && map_or r.expires_at false (λ deadline. leb deadline now)

abbrev pub retired_for : Clock → RetiredReason → ServiceRuntime → ServiceRuntime
retired_for clock reason r = record (disable r) {
  retired = some reason;
  retired_at_unix_ms = clock.unix_ms;
  expires_at = none;
}

-- The body of the loop over the services that are due.
unfoldable pub expire : Clock → ServiceMap → ServiceId → Session → Session
unfolding disable update sync append_service_event
expire clock services id s =
    append_service_event clock id ServiceEventKind.retired
      (sync clock services id (update id (retired_for clock RetiredReason.expired) s))

abbrev pub expire_each : Clock → ServiceMap → List ServiceId → Session → Session
expire_each clock services [] s = s
expire_each clock services (id ∷ ids) s =
    expire_each clock services ids (expire clock services id s)

abbrev pub expired_ids : (now : ℕ) → Runtimes → List ServiceId
expired_ids now [] = []
expired_ids now ((id, r) ∷ m) =
    if has_expired now r then id ∷ expired_ids now m else expired_ids now m

abbrev is_nonempty : List ServiceId → Bool
is_nonempty [] = false
is_nonempty (id ∷ ids) = true

unfoldable pub expire_due : Clock → ServiceMap → Session → Session × Bool
unfolding expire
expire_due clock services s =
    let due = expired_ids clock.now s.runtimes in
    (expire_each clock services due s, is_nonempty due)

abbrev will_restart : Service → ServiceRuntime → State → Bool
will_restart service r (State.exited exit_code) = will_auto_restart service.spec.restart exit_code r
will_restart service r _ = false

abbrev pub is_due : (now : ℕ) → Service → ServiceRuntime → Bool
is_due now service r =
    if is_disabled_desire r.desired || (is_some r.running || r.start_requested)
    then false
    else if map_or r.restart.backoff_until false (λ deadline. ltb now deadline)
    then false
    else will_restart service r r.state

unfoldable pub has_due_auto_restart : (now : ℕ) → ServiceMap → Runtimes → Bool
unfolding will_auto_restart
has_due_auto_restart now services m =
    exists (λ (e : ServiceId × Service). map_or (lookup e.0 m) false (is_due now e.1)) services
