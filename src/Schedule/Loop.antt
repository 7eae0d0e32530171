-- ===== src/Schedule/Loop.antt =====
-- crates/micromux/src/scheduler/schedule.rs: `schedule_ready`.
use micromux.Prelude.{
  ℕ, zero, suc, List, [], ◌∷◌, Bool, false, ◌||◌, Option, none, some, if◌then◌else◌,
}
use micromux.Model.{ServiceId}
use micromux.Service.{Service, ServiceMap, DependencySpec}
use micromux.Runtime.{Clock}
use micromux.Session.{Session}
use micromux.Schedule.{StartCheck, skip, consider, blocking_dependencies, should_consider_start}
use micromux.Schedule.Start.{
  Spawn, record_dependency_block, clear_dependency_block, start_service_if_ready,
}

-- One round of the loop below, by what is found of the service.
abbrev pub record_block_of :
    Clock → ServiceId → Service → StartCheck → List DependencySpec → Session → Session
record_block_of clock id service skip blocked s = s
record_block_of clock id service (consider exited_code) [] s = s
record_block_of clock id service (consider exited_code) (dep ∷ deps) s =
    record_dependency_block clock id service (dep ∷ deps) s

unfoldable pub record_stable_dependency_blocks : Clock → ServiceMap → Session → Session
unfolding record_dependency_block
record_stable_dependency_blocks clock [] s = s
record_stable_dependency_blocks clock ((id, service) ∷ services) s =
    record_stable_dependency_blocks clock services (
      record_block_of clock id service (should_consider_start clock.now s.runtimes id service)
        (blocking_dependencies s.runtimes service) s)

-- The body of the `for` loop.
unfoldable pub visit : Spawn → Clock → ServiceId → Service → Session → Session × Bool
visit spawn clock id service s = elim (should_consider_start clock.now s.runtimes id service) [
  | skip ↦ (clear_dependency_block clock id service s, false)
  | consider exited_code ↦ start_service_if_ready spawn clock id service exited_code s
]

-- The `for` loop: the session, and whether a service was started.
unfoldable pub pass : Spawn → Clock → ServiceMap → Session → Session × Bool
pass spawn clock [] s = (s, false)
pass spawn clock ((id, service) ∷ services) s =
    let (s', started) = visit spawn clock id service s in
    let (s'', later) = pass spawn clock services s' in (s'', started || later)

-- The `loop`, on fuel; `clocks` holds what each pass reads, from a first pass number.
unfoldable pub schedule_ready :
    Spawn → (clocks : ℕ → Clock) → ServiceMap → (fuel round : ℕ) → Session → Option Session
schedule_ready spawn clocks services zero round s = none
schedule_ready spawn clocks services (suc fuel) round s =
    let (s', started) = pass spawn (clocks round) services s in
    let again = schedule_ready spawn clocks services fuel (suc round) s' in
    if started then again else some (record_stable_dependency_blocks (clocks round) services s')
