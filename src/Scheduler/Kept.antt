-- ===== src/Scheduler/Kept.antt =====
-- crates/micromux/src/scheduler.rs: the handlers of the main loop and the invariant of the
-- runtimes.
use micromux.Prelude.{
  ℕ, ◌≡◌, List, [], ◌∷◌, Option, none, some, arith, Option-cases, ◌⊎◌, inl, inr, lookup, insert,
}
use micromux.Model.{ServiceId, RetiredReason}
use micromux.Service.{ServiceMap}
use micromux.Runtime.{Clock, ServiceRuntime, cancel}
use micromux.Runtime.Methods.{disable, cancel_running}
use micromux.Runtime.Projection.{Lease, effective_lifetime}
use micromux.Runtime.Invariant.{IsValid, new_runtime-IsValid, disable-IsValid}
use micromux.Session.{Runtimes, Session, call, put, append_service_event}
use micromux.Schedule.Valid.{AreValid, lookup-IsValid, insert-AreValid}
use micromux.Events.{update}
use micromux.Events.Written.{sync-runtimes}
use micromux.Timers.{each, retired_for, expire, expire_each, take_due_of}
use micromux.Commands.{
  Answer, accepted, rejected, lease_deadlines, DynamicServicesPolicy, apply_disable, stop_dynamic,
  renew_dynamic,
}
use micromux.Scheduler.{new_runtimes}

pub new_runtimes-AreValid : (services : ServiceMap) → AreValid (new_runtimes services)
unfolding new_runtimes
new_runtimes-AreValid [] = tt
new_runtimes-AreValid ((id, service) ∷ services) =
    (new_runtime-IsValid service.spec.restart service.startup_mode, new_runtimes-AreValid services)

pub each-keeps :
    (change : ServiceRuntime → ServiceRuntime) (m : Runtimes)
    → ((r : ServiceRuntime) → IsValid r → IsValid (change r))
    → AreValid m
    → AreValid (each change m)
each-keeps change [] h v = tt
each-keeps change ((id, r) ∷ m) h v = (h r v.0, each-keeps change m h v.1)

pub update-AreValid :
    (id : ServiceId) (change : ServiceRuntime → ServiceRuntime) (s : Session)
    → ((r : ServiceRuntime) → IsValid r → IsValid (change r))
    → AreValid s.runtimes
    → AreValid (update id change s).runtimes
unfolding update put
update-AreValid id change s h v = elim (Option-cases (lookup id s.runtimes)) [
  | inl unknown ↦ rw unknown v
  | inr (r, e) ↦
      rw e (insert-AreValid id (change r) s.runtimes (h r (lookup-IsValid id s.runtimes r v e)) v)
]

pub retired_for-IsValid :
    (clock : Clock) (reason : RetiredReason) (r : ServiceRuntime)
    → IsValid r
    → IsValid (retired_for clock reason r)
unfolding disable
retired_for-IsValid clock reason r v = ground arith

pub expire_each-AreValid :
    (clock : Clock) (services : ServiceMap) (ids : List ServiceId) (s : Session)
    → AreValid s.runtimes
    → AreValid (expire_each clock services ids s).runtimes
unfolding expire
expire_each-AreValid clock services [] s v = v
expire_each-AreValid clock services (id ∷ ids) s v =
    expire_each-AreValid clock services ids (expire clock services id s) (
      rw (sync-runtimes clock services id (update id (retired_for clock RetiredReason.expired) s)) (
        update-AreValid id (retired_for clock RetiredReason.expired) s
          (retired_for-IsValid clock RetiredReason.expired) v))

pub apply_disable-AreValid :
    (clock : Clock) (services : ServiceMap) (id : ServiceId) (s : Session)
    → AreValid s.runtimes
    → AreValid (apply_disable clock services id s).0.runtimes
unfolding apply_disable put
apply_disable-AreValid clock services id s v = elim (Option-cases (lookup id s.runtimes)) [
  | inl unknown ↦ rw (unknown, apply_disable) v
  | inr (r, e) ↦
      rw (e, apply_disable, sync-runtimes clock services id (put id (disable r) s))
        (insert-AreValid id (disable r) s.runtimes
          (disable-IsValid r (lookup-IsValid id s.runtimes r v e)) v)
]

-- A stop leaves the runtimes or retires one.
pub stop_dynamic-runtimes :
    (policy : DynamicServicesPolicy) (clock : Clock) (services : ServiceMap) (id : ServiceId)
    (s : Session) (r : ServiceRuntime)
    → lookup id s.runtimes ≡ some r
    → let after = (stop_dynamic policy clock services id s).0.runtimes in
      (after ≡ s.runtimes)
      ⊎ (after ≡ insert id (retired_for clock RetiredReason.stopped r) s.runtimes)
unfolding stop_dynamic put append_service_event call
stop_dynamic-runtimes policy clock services id s r e = ground (
  arith,
  e,
  sync-runtimes clock services id (put id (retired_for clock RetiredReason.stopped r) s),
)

pub stop_dynamic-unknown :
    (policy : DynamicServicesPolicy) (clock : Clock) (services : ServiceMap) (id : ServiceId)
    (s : Session)
    → lookup id s.runtimes ≡ none
    → (stop_dynamic policy clock services id s).0 ≡ s
unfolding stop_dynamic
stop_dynamic-unknown policy clock services id s e = ground (arith, e)

pub stop_dynamic-AreValid :
    (policy : DynamicServicesPolicy) (clock : Clock) (services : ServiceMap) (id : ServiceId)
    (s : Session)
    → AreValid s.runtimes
    → AreValid (stop_dynamic policy clock services id s).0.runtimes
stop_dynamic-AreValid policy clock services id s v = elim (Option-cases (lookup id s.runtimes)) [
  | inl unknown ↦ rw (stop_dynamic-unknown policy clock services id s unknown) v
  | inr (r, e) ↦ elim (stop_dynamic-runtimes policy clock services id s r e) [
    | inl same ↦ rw same v
    | inr retired ↦ rw retired (
        insert-AreValid id (retired_for clock RetiredReason.stopped r) s.runtimes
          (retired_for-IsValid clock RetiredReason.stopped r (lookup-IsValid id s.runtimes r v e))
          v)
  ]
]

-- The deadline of an accepted lease.
abbrev given : Answer (Option ℕ × Option ℕ) → Option ℕ
given (accepted lease) = lease.0
given (rejected reason) = none

-- A renewal leaves the runtimes or gives one a new deadline.
pub renew_dynamic-runtimes :
    (policy : DynamicServicesPolicy) (latest : ℕ) (clock : Clock) (id : ServiceId)
    (expected_revision : ℕ) (expires_after : Option Lease) (services : ServiceMap) (s : Session)
    (r : ServiceRuntime)
    → lookup id s.runtimes ≡ some r
    → let lease =
        lease_deadlines latest clock (effective_lifetime policy.max_lifetime expires_after) in
      let after =
        (renew_dynamic policy latest clock id expected_revision expires_after services
          s).0.1.runtimes in
      (after ≡ s.runtimes) ⊎ (after ≡ insert id (record r { expires_at = given lease }) s.runtimes)
unfolding renew_dynamic put append_service_event call
renew_dynamic-runtimes policy latest clock id expected_revision expires_after services s r e =
    grind (arith, e, sync-runtimes)

pub renew_dynamic-unknown :
    (policy : DynamicServicesPolicy) (latest : ℕ) (clock : Clock) (id : ServiceId)
    (expected_revision : ℕ) (expires_after : Option Lease) (services : ServiceMap) (s : Session)
    → lookup id s.runtimes ≡ none
    → (renew_dynamic policy latest clock id expected_revision expires_after services s).0.1 ≡ s
unfolding renew_dynamic
renew_dynamic-unknown policy latest clock id expected_revision expires_after services s e =
    ground (arith, e)

pub leased-IsValid :
    (expires_at : Option ℕ) (r : ServiceRuntime)
    → IsValid r
    → IsValid (record r { expires_at = expires_at })
leased-IsValid expires_at r v = ground arith

pub renew_dynamic-AreValid :
    (policy : DynamicServicesPolicy) (latest : ℕ) (clock : Clock) (id : ServiceId)
    (expected_revision : ℕ) (expires_after : Option Lease) (services : ServiceMap) (s : Session)
    → AreValid s.runtimes
    → AreValid
        (renew_dynamic policy latest clock id expected_revision expires_after services
          s).0.1.runtimes
renew_dynamic-AreValid policy latest clock id expected_revision expires_after services s v =
    let lease =
      lease_deadlines latest clock (effective_lifetime policy.max_lifetime expires_after) in
    elim (Option-cases (lookup id s.runtimes)) [
      | inl unknown ↦
          rw
            (renew_dynamic-unknown policy latest clock id expected_revision expires_after services s
              unknown)
            v
      | inr (r, e) ↦
          elim (renew_dynamic-runtimes policy latest clock id expected_revision expires_after
            services s r e) [
              | inl same ↦ rw same v
              | inr leased ↦ rw leased (
                  insert-AreValid id (record r { expires_at = given lease }) s.runtimes
                    (leased-IsValid (given lease) r (lookup-IsValid id s.runtimes r v e)) v)
            ]
    ]

pub dropped-IsValid : (now : ℕ) (r : ServiceRuntime) → IsValid r → IsValid (take_due_of now r)
dropped-IsValid now r v = ground arith

pub cancelled-IsValid :
    (r : ServiceRuntime) → IsValid r → IsValid (record r { running = cancel_running r.running })
unfolding cancel
cancelled-IsValid r v = ground arith
