-- ===== src/Commands/Renewal.antt =====
-- crates/micromux/src/scheduler.rs: the lease that `renew_dynamic` gives.
use micromux.Prelude.{
  ◌⊎◌, ℕ, ◌+◌, ◌≤◌, ◌≡◌, refl, true, Option, none, some, arith, Option-cases, inl, inr, lookup,
  insert, is_some, map_or,
}
use micromux.Model.{ServiceId, ServiceEventKind}
use micromux.Service.{ServiceMap, ServiceOrigin, DynamicOrigin}
use micromux.Runtime.{Clock, ServiceRuntime}
use micromux.Runtime.Projection.{Lease, effective_lifetime}
use micromux.Session.{Session, put, sync, append_service_event}
use micromux.Commands.{
  Answer, accepted, rejected, CommandRejection, DynamicServiceAck, DynamicServicesPolicy,
  renew_dynamic, lease_deadlines, renewed,
}
use micromux.Commands.Unchanged.{event-lookup}

-- The deadline of a lease under a policy with a maximum.
lease_bounded :
    (latest most : ℕ) (clock : Clock) (expires_after : Option Lease) (expires_at wall : Option ℕ)
    → lease_deadlines latest clock (effective_lifetime (some most) expires_after)
      ≡ accepted (expires_at, wall)
    → (is_some expires_at ≡ true) × (map_or expires_at 0 (λ d. d) ≤ clock.now + most)
unfolding lease_deadlines effective_lifetime
lease_bounded latest most clock expires_after expires_at wall h = ground arith

-- The deadline that a service has.
abbrev pub expiry_in : ServiceId → Session → Option ℕ
expiry_in id s = map_or (lookup id s.runtimes) none (λ r. r.expires_at)

Answer-cases {ℓ} :
    {A : Type ℓ} (a : Answer A)
    → ((x : A) × (a ≡ accepted x)) ⊎ ((reason : CommandRejection) × (a ≡ rejected reason))
Answer-cases (accepted x) = inl (x, refl)
Answer-cases (rejected reason) = inr (reason, refl)

Origin-cases :
    (origin : ServiceOrigin)
    → (origin ≡ ServiceOrigin.configured)
      ⊎ ((d : DynamicOrigin) × (origin ≡ ServiceOrigin.dynamic d))
Origin-cases ServiceOrigin.configured = inl refl
Origin-cases (ServiceOrigin.dynamic d) = inr (d, refl)

expiry-renewed :
    (clock : Clock) (known : ServiceMap) (id : ServiceId) (r : ServiceRuntime) (s : Session)
    → expiry_in id (
        append_service_event clock id ServiceEventKind.lease_renewed
          (sync clock known id (put id r s)))
      ≡ r.expires_at
expiry-renewed clock known id r s =
    rw (event-lookup clock known id ServiceEventKind.lease_renewed r s) refl

-- Under a policy with a maximum lifetime, a dynamic service whose renewal was accepted has a
-- deadline that is at most the maximum away, whatever lease was asked for.
pub renew_dynamic-bounded :
    (policy : DynamicServicesPolicy) (latest most : ℕ) (clock : Clock) (id : ServiceId)
    (expected_revision : ℕ) (expires_after : Option Lease) (services : ServiceMap) (s : Session)
    (ack : DynamicServiceAck)
    → policy.max_lifetime ≡ some most
    → (renew_dynamic policy latest clock id expected_revision expires_after services s).1
      ≡ accepted ack
    → let expiry =
        expiry_in id
          (renew_dynamic policy latest clock id expected_revision expires_after services s).0.1 in
      (is_some expiry ≡ true) × (map_or expiry 0 (λ d. d) ≤ clock.now + most)
unfolding renew_dynamic
renew_dynamic-bounded policy latest most clock id expected_revision expires_after services s ack
      capped h =
    elim (Option-cases (lookup id s.runtimes)) [
      | inl unknown ↦ ground (arith, unknown, h)
      | inr (r, e) ↦
          elim (Answer-cases
            (lease_deadlines latest clock (effective_lifetime (some most) expires_after))) [
              | inl ((expires_at, wall), lease) ↦ elim (Option-cases (lookup id services)) [
                | inl no_service ↦ ground (arith, no_service, h)
                | inr (service, k) ↦ elim (Origin-cases service.origin) [
                  | inl configured ↦ ground (arith, k, configured, h)
                  | inr (origin, o) ↦ ground (
                    arith,
                    e,
                    h,
                    k,
                    o,
                    lease,
                    capped,
                    lease_bounded latest most clock expires_after expires_at wall lease,
                    expiry-renewed clock (insert id (renewed wall origin service) services) id
                        (record r { expires_at = expires_at }) s,
                  )
                ]
              ]
              | inr (reason, refused) ↦ ground (arith, e, h, refused, capped)
            ]
    ]
