-- ===== src/Model.antt =====
-- crates/micromux/src/model.rs: the lifecycle facts that the scheduler publishes, and what it asks
-- of its `SessionModelWriter`.
use micromux.Prelude.{ℕ, String, List, Bool, Option}
use micromux.Restart.{RestartPolicy, RestartState}

abbrev pub ServiceId : Type 0
ServiceId = String

-- `i32`, the exit code of a process: `negsuc n` is -(n + 1).
pub data ExitCode : Type 0 where
  pos : ℕ → ExitCode
  negsuc : ℕ → ExitCode

pub data Desired : Type 0 where
  enabled disabled unknown : Desired

pub data Execution : Type 0 where
  pending blocked starting running stopping exited unknown : Execution

pub data OriginKind : Type 0 where
  configured dynamic unknown : OriginKind

pub data RetiredReason : Type 0 where
  stopped expired removed unknown : RetiredReason

-- crates/micromux/src/health_check.rs
pub data Health : Type 0 where
  healthy unhealthy unknown : Health

pub record DynamicServiceInfo : Type 0 where
  pub created_at_unix_ms : ℕ
  pub expires_at_unix_ms : Option ℕ
  pub owner : Option String
  pub revision : ℕ

pub record HealthcheckConfig : Type 0 where
  pub retries : ℕ
  pub interval : ℕ
  pub timeout : ℕ

pub record ServiceSnapshot : Type 0 where
  pub id : ServiceId
  pub name : String
  pub origin : OriginKind
  pub dynamic : Option DynamicServiceInfo
  pub retired : Option RetiredReason
  pub retired_at_unix_ms : Option ℕ
  pub desired : Desired
  pub execution : Execution
  pub health : Option Health
  pub run_generation : ℕ
  pub pid : Option ℕ
  pub started_at_unix_ms : Option ℕ
  pub advertised_ports : List ℕ
  pub healthcheck_configured : Bool
  pub healthcheck : Option HealthcheckConfig
  pub stop_grace_period : ℕ
  pub config_stale : Bool
  pub restart_state : Option RestartState
  pub last_exit_code : Option ExitCode
  pub command : List String
  pub working_dir : Option String
  pub uptime : Option ℕ
  pub restart_policy : RestartPolicy

pub data ServiceEventKind : Type 0 where
  restart_requested enable_requested disable_requested config_reloaded : ServiceEventKind
  spawn_failed spawned healthy unhealthy exited backoff_scheduled : ServiceEventKind
  dependency_blocked dependency_ready input_dropped created replaced : ServiceEventKind
  lease_renewed retired unknown : ServiceEventKind

-- An event with the text that describes it left out: `detail` repeats the fields in words.
pub record ServiceEvent : Type 0 where
  pub seq : ℕ
  pub at_unix_ms : ℕ
  pub run_generation : ℕ
  pub kind : ServiceEventKind
  pub exit_code : Option ExitCode
  pub pid : Option ℕ
  pub delay_ms : Option ℕ
  pub blocked_on : Option (List ServiceId)

-- The calls of `SessionModelWriter` that the scheduler makes.
pub data WriterCall : Type 0 where
  write_snapshot : ServiceSnapshot → (started_at : Option ℕ) → WriterCall
  append_event : ServiceId → ServiceEvent → WriterCall
  begin_run : ServiceId → (run_generation : ℕ) → WriterCall
  clear_logs : ServiceId → WriterCall
  remove_service : ServiceId → WriterCall
