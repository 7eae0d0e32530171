-- ===== src/Commands/Unchanged.antt =====
-- crates/micromux/src/scheduler.rs: rejected renewals and repeated stops.
use micromux.Prelude.{
  ℕ, ◌≡◌, Bool, true, false, Option, some, arith, Option-cases, inl, inr, lookup,
  lookup-insert_self,
}
use micromux.Model.{ServiceId, RetiredReason, ServiceEventKind}
use micromux.Service.{ServiceMap}
use micromux.Runtime.{Clock, ServiceRuntime}
use micromux.Runtime.Methods.{disable, run_generation}
use micromux.Runtime.Projection.{Lease}
use micromux.Session.{Session, call, put, sync, append_service_event}
use micromux.Events.Written.{sync-runtimes}
use micromux.Timers.{retired_for}
use micromux.Commands.{
  Answer, accepted, rejected, DynamicServiceAck, DynamicServicesPolicy, stop_dynamic, renew_dynamic,
  new_ack,
}

abbrev pub is_rejected {ℓ} : {A : Type ℓ} → Answer A → Bool
is_rejected (accepted a) = false
is_rejected (rejected reason) = true

-- A renewal that is rejected, for whatever reason, leaves the services, the runtimes and the
-- session model.
pub renew_dynamic-rejected :
    (policy : DynamicServicesPolicy) (latest : ℕ) (clock : Clock) (id : ServiceId)
    (expected_revision : ℕ) (expires_after : Option Lease) (services : ServiceMap) (s : Session)
    → is_rejected
        (renew_dynamic policy latest clock id expected_revision expires_after services s).1
      ≡ true
    → (renew_dynamic policy latest clock id expected_revision expires_after services s).0
      ≡ (services, s)
unfolding renew_dynamic
renew_dynamic-rejected policy latest clock id expected_revision expires_after services s h =
    ground arith

pub event-lookup :
    (clock : Clock) (services : ServiceMap) (id : ServiceId) (kind : ServiceEventKind)
    (r : ServiceRuntime) (s : Session)
    → lookup id (append_service_event clock id kind (sync clock services id (put id r s))).runtimes
      ≡ some r
unfolding append_service_event call put
event-lookup clock services id kind r s =
    rw (sync-runtimes clock services id (put id r s)) (lookup-insert_self id r s.runtimes)

-- After an accepted stop of a dynamic service, a further one at any time changes nothing and gives
-- the same answer, with the mark that the service was retired already.
pub stop_dynamic-again :
    (policy : DynamicServicesPolicy) (clock later : Clock) (services : ServiceMap) (id : ServiceId)
    (s : Session) (ack : DynamicServiceAck)
    → (stop_dynamic policy clock services id s).1 ≡ accepted ack
    → stop_dynamic policy later services id (stop_dynamic policy clock services id s).0 ≡ (
      (stop_dynamic policy clock services id s).0,
      accepted (record ack { already_retired = true }),
    )
unfolding stop_dynamic new_ack disable run_generation
stop_dynamic-again policy clock later services id s ack h =
    elim (Option-cases (lookup id s.runtimes)) [
      | inl unknown ↦ ground (arith, unknown, h)
      | inr (r, e) ↦ ground (
        arith,
        e,
        h,
        event-lookup clock services id ServiceEventKind.retired
            (retired_for clock RetiredReason.stopped r) s,
      )
    ]
