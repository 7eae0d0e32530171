-- ===== src/Scheduler.antt =====
-- crates/micromux/src/scheduler.rs: `SchedulerRuntime::new` and the steps of the main loop `run`,
-- each of which answers what the loop waited for, or is a scheduling pass after it.
-- A step stands for one arm of the `select`, in any order and at any clock.
pub mod Kept
pub mod Reachable
mod Examples
use micromux.Prelude.{ℕ, ◌≡◌, List, [], ◌∷◌, Option, none, some}
use micromux.Model.{ServiceId}
use micromux.Service.{Service, ServiceMap}
use micromux.Runtime.{Clock, ServiceRuntime, new_runtime}
use micromux.Runtime.Projection.{Lease}
use micromux.Session.{Runtimes, Session}
use micromux.Schedule.Start.{Spawn}
use micromux.Schedule.Loop.{schedule_ready}
use micromux.Events.{ProcessEvent, handle_event}
use micromux.Timers.{cancel_all_due_drains, cancel_all_running, report_due_input_drops, expire_due}
use micromux.Commands.{DynamicServicesPolicy, apply_disable, stop_dynamic, renew_dynamic}

-- The runtimes that `SchedulerRuntime::new` makes.
unfoldable pub new_runtimes : ServiceMap → Runtimes
unfolding new_runtime
new_runtimes [] = []
new_runtimes ((id, service) ∷ services) =
    (id, new_runtime service.spec.restart service.startup_mode) ∷ new_runtimes services

-- What the main loop works on.
pub record Loop : Type 0 where
  pub services : ServiceMap
  pub session : Session

abbrev pub loop_of : ServiceMap × Session → Loop
loop_of (services, s) = record { services = services; session = s }

unfoldable pub new_loop : ServiceMap → Loop
unfolding new_runtimes
new_loop services = record {
  services = services;
  session = record { runtimes = new_runtimes services; calls = [] };
}

module _ (policy : DynamicServicesPolicy) (latest : ℕ) where
  -- One arm of the loop, from a state to the next.
  pub data Step : Loop → Loop → Type 0 where
    scheduled :
        {l : Loop} {s : Session} (spawn : Spawn) (clocks : ℕ → Clock) (fuel round : ℕ)
        → schedule_ready spawn clocks l.services fuel round l.session ≡ some s
        → Step l (record l { session = s })
    reported :
        {l : Loop} (clock : Clock) (event : ProcessEvent)
        → Step l (record l { session = (handle_event clock l.services event l.session).0 })
    expired :
        {l : Loop} (clock : Clock)
        → Step l (record l { session = (expire_due clock l.services l.session).0 })
    drained :
        {l : Loop} (now : ℕ) → Step l (record l { session = cancel_all_due_drains now l.session })
    dropped :
        {l : Loop} (clock : Clock)
        → Step l (record l { session = report_due_input_drops clock l.session })
    disabled :
        {l : Loop} (clock : Clock) (id : ServiceId)
        → Step l (record l { session = (apply_disable clock l.services id l.session).0 })
    stopped :
        {l : Loop} (clock : Clock) (id : ServiceId)
        → Step l (record l { session = (stop_dynamic policy clock l.services id l.session).0 })
    renewed :
        {l : Loop} (clock : Clock) (id : ServiceId) (expected_revision : ℕ)
        (expires_after : Option Lease)
        → Step l (
            loop_of
              (renew_dynamic policy latest clock id expected_revision expires_after l.services
                l.session).0)
    shut_down : {l : Loop} → Step l (record l { session = cancel_all_running l.session })

  pub data Reach (services : ServiceMap) : Loop → Type 0 where
    at_start : Reach services (new_loop services)
    next : {l l' : Loop} → Reach services l → Step l l' → Reach services l'
