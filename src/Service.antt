-- ===== src/Service.antt =====
-- crates/micromux/src/spec.rs and service.rs: the definition of one supervised service, and
-- crates/micromux/src/config/mod.rs: `DependencyCondition`.
use micromux.Prelude.{ℕ, String, List, Option, map_or}
use micromux.Restart.{RestartPolicy}
use micromux.Model.{ServiceId, HealthcheckConfig}

pub data DependencyCondition : Type 0 where
  started healthy completed_successfully : DependencyCondition

pub record DependencySpec : Type 0 where
  pub service : ServiceId
  pub condition : DependencyCondition

pub record HealthcheckSpec : Type 0 where
  pub test : List String
  pub start_delay : Option ℕ
  pub interval : ℕ
  pub timeout : ℕ
  pub retries : ℕ

-- `From<&HealthcheckSpec> for HealthcheckConfig` of model.rs
unfoldable pub healthcheck_config : HealthcheckSpec → HealthcheckConfig
healthcheck_config config = record {
  retries = config.retries;
  interval = config.interval;
  timeout = config.timeout;
}

-- A path is the text that `display` shows of it.
pub record ServiceSpec : Type 0 where
  pub name : Option String
  pub command : List String
  pub working_dir : Option String
  pub environment : List (String × String)
  pub depends_on : List DependencySpec
  pub healthcheck : Option HealthcheckSpec
  pub ports : List ℕ
  pub restart : RestartPolicy
  pub stop_grace_period : ℕ

pub record DynamicOrigin : Type 0 where
  pub created_at_unix_ms : ℕ
  pub expires_at_unix_ms : Option ℕ
  pub owner : Option String
  pub revision : ℕ

pub data ServiceOrigin : Type 0 where
  configured : ServiceOrigin
  dynamic : DynamicOrigin → ServiceOrigin

pub data StartupMode : Type 0 where
  enabled disabled : StartupMode

-- The fields that the scheduler reads; the colour flag, the log limits and the open directory
-- handle are used by the process code only.
pub record Service : Type 0 where
  pub id : ServiceId
  pub spec : ServiceSpec
  pub origin : ServiceOrigin
  pub startup_mode : StartupMode

unfoldable pub argv : Service → List String
argv service = service.spec.command

unfoldable pub working_dir_display : Service → Option String
working_dir_display service = service.spec.working_dir

unfoldable pub display_name : Service → String
display_name service = map_or service.spec.name service.id (λ name. name)

-- `ServiceMap`, in the order of insertion.
abbrev pub ServiceMap : Type 0
ServiceMap = List (ServiceId × Service)
