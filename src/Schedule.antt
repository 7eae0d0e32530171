-- ===== src/Schedule.antt =====
-- crates/micromux/src/scheduler/schedule.rs: which services may start, and the loop that starts
-- them until no further one can.
-- What the operating system answers to a spawn is the parameter `spawn`: by service and run id,
-- the pid and the log reader of a started process, or `none` for an error. Each pass of the loop
-- reads the clock once. The diagnostics' wording is left out.
pub mod Start
pub mod Loop
pub mod Visit
pub mod Visited
pub mod Termination
pub mod Valid
pub mod Startable
pub mod Settled
pub mod Returns
pub mod Gate
pub mod Requests
mod Examples
use micromux.Prelude.{
  ℕ, List, [], ◌∷◌, map, keep, Bool, true, false, ◌&&◌, ◌||◌, Option, none, some, ltb, not,
  if◌then◌else◌, map_or, is_some, is_none, lookup,
}
use micromux.Model.{ServiceId, ExitCode, Health}
use micromux.Service.{Service, DependencyCondition, DependencySpec}
use micromux.Runtime.{Clock, State, ServiceRuntime}
use micromux.Runtime.Methods.{is_disabled_desire, is_zero_code, has_health}
use micromux.Runtime.Finish.{will_auto_restart}
use micromux.Session.{Runtimes}

-- Whether a dependency in a state meets the condition.
abbrev pub is_ready : DependencyCondition → State → Bool
is_ready DependencyCondition.started (State.running h) = true
is_ready DependencyCondition.healthy (State.running (some Health.healthy)) = true
is_ready DependencyCondition.completed_successfully (State.exited exit_code) =
    is_zero_code exit_code
is_ready _ _ = false

abbrev pub runtime_blocks : DependencyCondition → ServiceRuntime → Bool
runtime_blocks condition r =
    if is_disabled_desire r.desired || r.start_requested
    then true
    else not (is_ready condition r.state)

unfoldable pub blocks : Runtimes → DependencySpec → Bool
blocks runtimes dep = map_or (lookup dep.service runtimes) true (runtime_blocks dep.condition)

-- A blocked dependency has the fields of the dependency's entry.
unfoldable pub blocking_dependencies : Runtimes → Service → List DependencySpec
unfolding blocks
blocking_dependencies runtimes service = keep (blocks runtimes) service.spec.depends_on

pub data StartCheck : Type 0 where
  skip : StartCheck
  consider : (exited_code : Option ExitCode) → StartCheck

-- The `match` on the state.
abbrev check_state : ServiceRuntime → Service → State → StartCheck
check_state r service State.pending = consider none
check_state r service (State.exited exit_code) =
    if r.start_requested || will_auto_restart service.spec.restart exit_code r
    then consider (some exit_code)
    else skip
check_state r service _ = skip

abbrev backing_off : (now : ℕ) → ServiceRuntime → Bool
backing_off now r =
    not r.start_requested && map_or r.restart.backoff_until false (λ until. ltb now until)

unfoldable pub check_runtime : (now : ℕ) → Service → ServiceRuntime → StartCheck
unfolding will_auto_restart
check_runtime now service r =
    if is_disabled_desire r.desired || is_some r.running
    then skip
    else if backing_off now r
    then skip
    else check_state r service r.state

unfoldable pub should_consider_start : (now : ℕ) → Runtimes → ServiceId → Service → StartCheck
unfolding check_runtime
should_consider_start now runtimes id service =
    map_or (lookup id runtimes) skip (check_runtime now service)
