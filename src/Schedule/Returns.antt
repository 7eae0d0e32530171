-- ===== src/Schedule/Returns.antt =====
-- crates/micromux/src/scheduler/schedule.rs: the end of `schedule_ready`.
use micromux.Prelude.{
  ℕ, zero, suc, ◌≡◌, sym, subst, List, [], ◌∷◌, false, some, arith, Bool-cases, Option-cases, inl,
  inr, map, lookup, insert, text_eq, text_eq_iff_lem,
}
use micromux.Model.{ServiceId}
use micromux.Service.{Service, ServiceMap, DependencySpec}
use micromux.Runtime.{Clock, ServiceRuntime}
use micromux.Session.{Runtimes, Session}
use micromux.Schedule.{
  StartCheck, skip, consider, check_runtime, should_consider_start, blocking_dependencies,
}
use micromux.Schedule.Start.{Spawn, blocked_by, record_dependency_block, ids_eq}
use micromux.Schedule.Loop.{pass, schedule_ready, record_block_of, record_stable_dependency_blocks}
use micromux.Schedule.Valid.{AreValid, pass-AreValid, record_block_absent, same_session}
use micromux.Schedule.Startable.{startable, startable-insert_ne, startable-insert_alike}
use micromux.Schedule.Settled.{AreDistinct, AreSettled, pass_settles}

blocked_by-check :
    (now : ℕ) (service : Service) (ids : List ServiceId) (r : ServiceRuntime)
    → check_runtime now service (blocked_by ids r) ≡ check_runtime now service r
unfolding check_runtime
blocked_by-check now service ids r = ground arith

module _ (clock : Clock) (now : ℕ) (jd : ServiceId) (other : Service) where
  -- A service that could not be started still cannot when blocks are recorded.
  insert_keeps :
      (id : ServiceId) (ids : List ServiceId) (r : ServiceRuntime) (m : Runtimes)
      → lookup id m ≡ some r
      → startable now m jd other ≡ false
      → startable now (insert id (blocked_by ids r) m) jd other ≡ false
  insert_keeps id ids r m e h = elim (Bool-cases (text_eq id jd)) [
    | inl same ↦
        let one : id ≡ jd = text_eq_iff_lem id jd same in
        subst (λ (k : ServiceId). startable now (insert id (blocked_by ids r) m) k other ≡ false)
          one
          (startable-insert_alike now id other r (blocked_by ids r) m e (λ condition t. t)
            (blocked_by-check now other ids r)
            (subst (λ (k : ServiceId). startable now m k other ≡ false) (sym one) h))
    | inr ne ↦ startable-insert_ne now id jd other r (blocked_by ids r) m ne e (λ condition t. t) h
  ]

  record_keeps :
      (id : ServiceId) (service : Service) (blocked : List DependencySpec) (s : Session)
      → startable now s.runtimes jd other ≡ false
      → startable now (record_dependency_block clock id service blocked s).runtimes jd other ≡ false
  unfolding record_dependency_block
  record_keeps id service blocked s h = elim (Option-cases (lookup id s.runtimes)) [
    | inl e ↦ rw (record_block_absent clock id service blocked s e) h
    | inr (r, e) ↦
        let ids = map (λ (dep : DependencySpec). dep.service) blocked in
        rw (e, record_dependency_block)
          (elim (Bool-cases (ids_eq r.blocked_on ids)) [
            | inl same ↦ rw same h
            | inr new ↦ rw new (insert_keeps id ids r s.runtimes e h)
          ])
  ]

  block_of_keeps :
      (id : ServiceId) (service : Service) (check : StartCheck) (blocked : List DependencySpec)
      (s : Session)
      → startable now s.runtimes jd other ≡ false
      → startable now (record_block_of clock id service check blocked s).runtimes jd other ≡ false
  block_of_keeps id service skip blocked s h = h
  block_of_keeps id service (consider exited_code) [] s h = h
  block_of_keeps id service (consider exited_code) (dep ∷ deps) s h =
      record_keeps id service (dep ∷ deps) s h

  stable_keeps :
      (services : ServiceMap) (s : Session)
      → startable now s.runtimes jd other ≡ false
      → startable now (record_stable_dependency_blocks clock services s).runtimes jd other ≡ false
  unfolding record_stable_dependency_blocks
  stable_keeps [] s h = h
  stable_keeps ((id, service) ∷ services) s h = stable_keeps services _ (
      block_of_keeps id service (should_consider_start clock.now s.runtimes id service)
        (blocking_dependencies s.runtimes service) s h)

all_keep :
    (clock : Clock) (services shown : ServiceMap) (s : Session)
    → AreSettled clock.now s.runtimes shown
    → AreSettled clock.now (record_stable_dependency_blocks clock services s).runtimes shown
all_keep clock services [] s h = tt
all_keep clock services ((id, service) ∷ shown) s h =
    (stable_keeps clock clock.now id service services s h.0, all_keep clock services shown s h.1)

-- When `schedule_ready` returns, every service of the map is settled at the time that its last
-- pass read: it is no candidate for a start (disabled, with a process, parked by its restart
-- policy or waiting for a backoff), or a dependency holds it back. The map's ids are distinct and
-- the runtimes well formed; the spawns may answer anything.
pub schedule_ready_settles :
    (spawn : Spawn) (clocks : ℕ → Clock) (services : ServiceMap) (fuel round : ℕ) (s : Session)
    {s' : Session}
    → AreDistinct services
    → AreValid s.runtimes
    → schedule_ready spawn clocks services fuel round s ≡ some s'
    → (last : ℕ) × AreSettled (clocks last).now s'.runtimes services
unfolding schedule_ready
schedule_ready_settles spawn clocks services zero round s d v e = cc
schedule_ready_settles spawn clocks services (suc fuel) round s d v e =
    let (next, started) = pass spawn (clocks round) services s in
    elim (Bool-cases started) [
      | inl again ↦
          schedule_ready_settles spawn clocks services fuel (suc round) next d
            (pass-AreValid spawn (clocks round) services s v) (rw again at e)
      | inr over ↦ (
        round,
        subst (λ (t : Session). AreSettled (clocks round).now t.runtimes services)
            (same_session (rw over at e))
            (all_keep (clocks round) services services next
              (pass_settles spawn (clocks round) services s d v over)),
      )
    ]
