-- ===== src/Runtime/Projection.antt =====
-- crates/micromux/src/scheduler.rs: `project_execution` and `project_snapshot`, by which a runtime
-- becomes the snapshot that readers see, and `effective_lifetime`.
use micromux.Prelude.{
  ℕ, min, List, [], ◌∷◌, Bool, true, false, Option, none, some, not, ◌&&◌, ◌==◌, if◌then◌else◌,
  map_or, is_some, text_eq,
}
use micromux.Restart.{active_restart_state}
use micromux.Model.{
  Desired, Execution, OriginKind, DynamicServiceInfo, Health, HealthcheckConfig, ServiceSnapshot,
}
use micromux.Service.{Service, ServiceOrigin, display_name}
use micromux.Runtime.{DesiredState, State, RunningService, RunConfig, run_config_of, ServiceRuntime}
use micromux.Runtime.Methods.{run_generation}

unfoldable pub project_execution :
    (running : Bool) → State → (ran_before : Bool) → (blocked : Bool) → Execution
project_execution true (State.running h) ran_before blocked = Execution.running
project_execution true State.killed ran_before blocked = Execution.stopping
project_execution true State.disabled ran_before blocked = Execution.stopping
project_execution true State.starting ran_before blocked = Execution.starting
project_execution true State.pending ran_before blocked = Execution.starting
project_execution true (State.exited exit_code) ran_before blocked = Execution.starting
project_execution false State.pending ran_before blocked =
    if blocked then Execution.blocked else Execution.pending
project_execution false State.starting ran_before blocked = Execution.starting
project_execution false (State.running h) ran_before blocked = Execution.starting
project_execution false State.killed ran_before blocked = Execution.stopping
project_execution false (State.exited exit_code) ran_before blocked =
    if blocked then Execution.blocked else Execution.exited
project_execution false State.disabled ran_before blocked =
    if ran_before then Execution.exited else Execution.pending

abbrev project_health : Execution → State → Option Health
project_health Execution.running (State.running h) = h
project_health _ _ = none

abbrev project_desired : DesiredState → Desired
project_desired DesiredState.enabled = Desired.enabled
project_desired DesiredState.disabled = Desired.disabled

abbrev origin_kind : ServiceOrigin → OriginKind
origin_kind ServiceOrigin.configured = OriginKind.configured
origin_kind (ServiceOrigin.dynamic origin) = OriginKind.dynamic

abbrev dynamic_info : ServiceOrigin → Option DynamicServiceInfo
dynamic_info ServiceOrigin.configured = none
dynamic_info (ServiceOrigin.dynamic origin) = some (record {
  created_at_unix_ms = origin.created_at_unix_ms;
  expires_at_unix_ms = origin.expires_at_unix_ms;
  owner = origin.owner;
  revision = origin.revision;
})

abbrev pid_of : Option RunningService → Option ℕ
pid_of none = none
pid_of (some live) = live.pid

abbrev pub has_some {ℓ} : {A : Type ℓ} → List A → Bool
has_some [] = false
has_some (x ∷ xs) = true

-- The derived equality of `RunConfig`.
module _ {ℓ} {A : Type ℓ} (eq : A → A → Bool) where
  abbrev list_eq : List A → List A → Bool
  list_eq [] [] = true
  list_eq (x ∷ xs) (y ∷ ys) = eq x y && list_eq xs ys
  list_eq _ _ = false

  abbrev option_eq : Option A → Option A → Bool
  option_eq none none = true
  option_eq (some x) (some y) = eq x y
  option_eq _ _ = false

abbrev healthcheck_eq : HealthcheckConfig → HealthcheckConfig → Bool
healthcheck_eq a b = a.retries == b.retries && (a.interval == b.interval && a.timeout == b.timeout)

unfoldable pub run_config_eq : RunConfig → RunConfig → Bool
run_config_eq a b =
    list_eq text_eq a.command b.command
    && (option_eq text_eq a.working_dir b.working_dir
        && (list_eq ◌==◌ a.advertised_ports b.advertised_ports
            && (option_eq healthcheck_eq a.healthcheck b.healthcheck
                && a.stop_grace_period == b.stop_grace_period)))

unfoldable pub project_snapshot : (now : ℕ) → Service → ServiceRuntime → ServiceSnapshot × Option ℕ
unfolding project_execution run_config_of run_config_eq active_restart_state run_generation
    display_name
project_snapshot now service r =
    let execution =
      project_execution (is_some r.running) r.state (is_some r.last_run_id)
        (has_some r.blocked_on) in
    let current_config = run_config_of service in
    let run_config = map_or r.run_config current_config (λ captured. captured) in
    (
      record {
        id = service.id;
        name = display_name service;
        origin = origin_kind service.origin;
        dynamic = dynamic_info service.origin;
        retired = r.retired;
        retired_at_unix_ms = r.retired_at_unix_ms;
        desired = project_desired r.desired;
        execution = execution;
        health = project_health execution r.state;
        run_generation = run_generation r;
        pid = pid_of r.running;
        started_at_unix_ms = r.started_at_unix_ms;
        advertised_ports = run_config.advertised_ports;
        healthcheck_configured = is_some run_config.healthcheck;
        healthcheck = run_config.healthcheck;
        stop_grace_period = run_config.stop_grace_period;
        config_stale =
            map_or r.run_config false (λ captured. not (run_config_eq captured current_config));
        restart_state = active_restart_state now service.spec.restart r.restart;
        last_exit_code = r.last_exit_code;
        command = run_config.command;
        working_dir = run_config.working_dir;
        uptime = none;
        restart_policy = service.spec.restart;
      },
      r.uptime_started_at,
    )

-- `Lease` of crates/micromux/src/spec.rs
pub data Lease : Type 0 where
  after : ℕ → Lease
  unbounded : Lease

unfoldable pub effective_lifetime : Option ℕ → Option Lease → Option ℕ
effective_lifetime maximum none = maximum
effective_lifetime maximum (some Lease.unbounded) = maximum
effective_lifetime (some maximum) (some (Lease.after requested)) = some (min requested maximum)
effective_lifetime none (some (Lease.after requested)) = some requested
