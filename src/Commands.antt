-- ===== src/Commands.antt =====
-- crates/micromux/src/scheduler.rs: the commands that disable a service, and stop or renew a
-- dynamic one, with the answers of crates/micromux/src/scheduler/control.rs and the policy of
-- crates/micromux/src/config/mod.rs.
-- The texts of the rejections are left out, and so are the sorted names of the environment in an
-- acknowledgement. `latest` is the last instant that the monotonic clock can represent.
pub mod Unchanged
pub mod Renewal
mod Examples
use micromux.Prelude.{
  ℕ, ◌+◌, ◌/◌, String, List, [], ◌∷◌, Bool, true, false, Option, none, some, leb, ◌==◌, not,
  if◌then◌else◌, map_or, is_some, lookup, insert, u64_max, saturating_add,
}
use micromux.Restart.{RestartPolicy}
use micromux.Model.{ServiceId, RetiredReason, ServiceEventKind}
use micromux.Service.{Service, ServiceSpec, ServiceMap, ServiceOrigin, DynamicOrigin}
use micromux.Runtime.{Clock, ServiceRuntime}
use micromux.Runtime.Methods.{run_generation, is_retired, disable}
use micromux.Runtime.Projection.{Lease, effective_lifetime}
use micromux.Session.{Session, put, sync, append_service_event}
use micromux.Schedule.Start.{nanos_per_ms}
use micromux.Timers.{retired_for}

pub data CommandRejection : Type 0 where
  unknown_service invalid_state config_reload policy_denied limit_exceeded : CommandRejection
  revision_mismatch : (expected actual : ℕ) → CommandRejection
  invalid_spec : CommandRejection

pub data Answer {ℓ} (A : Type ℓ) : Type ℓ where
  accepted : A → Answer A
  rejected : CommandRejection → Answer A

pub record ServiceCommandAck : Type 0 where
  pub service : ServiceId
  pub observed_generation : ℕ

pub record DynamicServiceAck : Type 0 where
  pub service : ServiceId
  pub revision : ℕ
  pub observed_generation : ℕ
  pub expires_at_unix_ms : Option ℕ
  pub command : List String
  pub working_dir : Option String
  pub ports : List ℕ
  pub restart : RestartPolicy
  pub healthcheck_configured : Bool
  pub already_retired : Bool
  pub idempotent_replay : Bool

unfoldable pub new_ack :
    ServiceId
    → (revision observed_generation : ℕ) (expires_at_unix_ms : Option ℕ) → ServiceSpec
    → (already_retired idempotent_replay : Bool) → DynamicServiceAck
new_ack service revision observed_generation expires_at_unix_ms spec already_retired replay =
    record {
      service = service;
      revision = revision;
      observed_generation = observed_generation;
      expires_at_unix_ms = expires_at_unix_ms;
      command = spec.command;
      working_dir = spec.working_dir;
      ports = spec.ports;
      restart = spec.restart;
      healthcheck_configured = is_some spec.healthcheck;
      already_retired = already_retired;
      idempotent_replay = replay;
    }

pub record DynamicServicesPolicy : Type 0 where
  pub enabled : Bool
  pub allowed_working_roots : List String
  pub max_services : ℕ
  pub max_lifetime : Option ℕ

unfoldable pub apply_disable :
    Clock → ServiceMap → ServiceId → Session → Session × Answer (List ServiceCommandAck)
unfolding disable run_generation put sync append_service_event
apply_disable clock services id s = elim (lookup id s.runtimes) [
  | none ↦ (s, rejected unknown_service)
  | some r ↦ (
    append_service_event clock id ServiceEventKind.disable_requested
        (sync clock services id (put id (disable r) s)),
    accepted ((record { service = id; observed_generation = run_generation r }) ∷ []),
  )
]

unfoldable pub stop_dynamic :
    DynamicServicesPolicy
    → Clock
    → ServiceMap
    → ServiceId
    → Session
    → Session × Answer DynamicServiceAck
unfolding disable run_generation put sync append_service_event new_ack
stop_dynamic policy clock services id s =
    if policy.enabled
    then elim (lookup id services) [
      | none ↦ (s, rejected unknown_service)
      | some service ↦ elim service.origin [
        | ServiceOrigin.configured ↦ (s, rejected invalid_state)
        | ServiceOrigin.dynamic origin ↦ elim (lookup id s.runtimes) [
          | none ↦ (s, rejected unknown_service)
          | some r ↦
              let ack =
                new_ack id origin.revision (run_generation r) origin.expires_at_unix_ms service.spec
                  (is_retired r) false in
              if is_retired r then (s, accepted ack) else (
                append_service_event clock id ServiceEventKind.retired
                    (sync clock services id (put id (retired_for clock RetiredReason.stopped r) s)),
                accepted ack,
              )
        ]
      ]
    ]
    else (s, rejected policy_denied)

-- The deadline on the clock of instants and on the wall clock.
abbrev in_ms : ℕ → ℕ
in_ms lifetime = if leb (lifetime / nanos_per_ms) u64_max then lifetime / nanos_per_ms else u64_max

unfoldable pub lease_deadlines :
    (latest : ℕ) → Clock → (lifetime : Option ℕ) → Answer (Option ℕ × Option ℕ)
lease_deadlines latest clock none = accepted (none, none)
lease_deadlines latest clock (some lifetime) =
    if leb (clock.now + lifetime) latest
    then accepted (
      some (clock.now + lifetime),
      some (saturating_add (map_or clock.unix_ms 0 (λ ms. ms)) (in_ms lifetime)),
    )
    else rejected invalid_spec

abbrev pub renewed : Option ℕ → DynamicOrigin → Service → Service
renewed expires_at_unix_ms origin service = record service {
  origin = ServiceOrigin.dynamic (record origin { expires_at_unix_ms = expires_at_unix_ms });
}

unfoldable pub renew_dynamic :
    DynamicServicesPolicy
    → (latest : ℕ) → Clock
    → ServiceId
    → (expected_revision : ℕ) → Option Lease
    → ServiceMap
    → Session
    → (ServiceMap × Session) × Answer DynamicServiceAck
unfolding run_generation put sync append_service_event new_ack lease_deadlines effective_lifetime
renew_dynamic policy latest clock id expected_revision expires_after services s =
    if policy.enabled
    then elim (lookup id services) [
      | none ↦ ((services, s), rejected unknown_service)
      | some service ↦ elim service.origin [
        | ServiceOrigin.configured ↦ ((services, s), rejected invalid_state)
        | ServiceOrigin.dynamic origin ↦
            if origin.revision == expected_revision
            then elim (lookup id s.runtimes) [
              | none ↦ ((services, s), rejected unknown_service)
              | some r ↦
                  if is_retired r
                  then ((services, s), rejected invalid_state)
                  else elim (lease_deadlines latest clock
                      (effective_lifetime policy.max_lifetime expires_after)) [
                        | rejected reason ↦ ((services, s), rejected reason)
                        | accepted (expires_at, expires_at_unix_ms) ↦
                            let known =
                              insert id (renewed expires_at_unix_ms origin service) services in
                            (
                              (
                                known,
                                append_service_event clock id ServiceEventKind.lease_renewed (
                                    sync clock known id
                                      (put id (record r { expires_at = expires_at }) s)),
                              ),
                              accepted (
                                  new_ack id origin.revision (run_generation r) expires_at_unix_ms
                                    service.spec false false),
                            )
                      ]
            ]
            else ((services, s), rejected (revision_mismatch expected_revision origin.revision))
      ]
    ]
    else ((services, s), rejected policy_denied)
