-- ===== src/Commands/Examples.antt =====
-- A dynamic service under a policy that bounds leases to an hour.
use micromux.Prelude.{
  ℕ, ◌+◌, ◌*◌, ◌≤◌, ◌≡◌, refl, [], ◌∷◌, true, false, Option, none, some, is_some, map_or, lookup,
}
use micromux.Service.{Service, ServiceMap, ServiceOrigin}
use micromux.Runtime.{new_runtime}
use micromux.Runtime.Methods.{run_generation}
use micromux.Runtime.Projection.{Lease, effective_lifetime}
use micromux.Runtime.Examples.{service_named, clock_at, live_runtime}
use micromux.Session.{Session}
use micromux.Commands.{
  accepted, DynamicServiceAck, DynamicServicesPolicy, stop_dynamic, renew_dynamic, new_ack,
  lease_deadlines,
}
use micromux.Commands.Unchanged.{renew_dynamic-rejected, stop_dynamic-again}
use micromux.Commands.Renewal.{expiry_in, renew_dynamic-bounded}

abbrev hour : ℕ
hour = 3_600_000_000_000

abbrev policy : DynamicServicesPolicy
policy = record {
  enabled = true;
  allowed_working_roots = [];
  max_services = 4;
  max_lifetime = some hour;
}

abbrev dynamic_service : Service
dynamic_service = record (service_named "job") {
  origin =
      ServiceOrigin.dynamic
        (record { created_at_unix_ms = 0; expires_at_unix_ms = none; owner = none; revision = 5 });
}

abbrev jobs : ServiceMap
jobs = ("job", dynamic_service) ∷ []

abbrev working : Session
working = record { runtimes = ("job", live_runtime) ∷ []; calls = [] }

abbrev ack : Option ℕ → DynamicServiceAck
ack expires_at = new_ack "job" 5 1 expires_at dynamic_service.spec false false

-- A revision that is not the current one.
renew_dynamic-rejected_example :
    (renew_dynamic policy (2 * hour) (clock_at 9) "job" 4 none jobs working).0 ≡ (jobs, working)
unfolding renew_dynamic lookup
renew_dynamic-rejected_example =
    renew_dynamic-rejected policy (2 * hour) (clock_at 9) "job" 4 none jobs working refl

stop_dynamic-again_example :
    stop_dynamic policy
      (clock_at 20)
      jobs
      "job"
      (stop_dynamic policy (clock_at 9) jobs "job" working).0
    ≡ (
      (stop_dynamic policy (clock_at 9) jobs "job" working).0,
      accepted (record (ack none) { already_retired = true }),
    )
unfolding stop_dynamic lookup new_runtime run_generation
stop_dynamic-again_example =
    stop_dynamic-again policy (clock_at 9) (clock_at 20) jobs "job" working (ack none) refl

renew_dynamic-bounded_example :
    let expiry =
      expiry_in "job"
        (renew_dynamic policy
          (3 * hour)
          (clock_at 9)
          "job"
          5
          (some Lease.unbounded)
          jobs
          working).0.1 in
    (is_some expiry ≡ true) × (map_or expiry 0 (λ d. d) ≤ 9 + hour)
unfolding renew_dynamic lookup new_runtime run_generation lease_deadlines effective_lifetime
renew_dynamic-bounded_example =
    renew_dynamic-bounded policy (3 * hour) hour (clock_at 9) "job" 5 (some Lease.unbounded) jobs
      working (ack (some 3_600_009)) refl refl
