-- ===== src/Schedule/Termination.antt =====
-- crates/micromux/src/scheduler/schedule.rs: how often the loop of `schedule_ready` goes round.
use micromux.Prelude.{
  ℕ, zero, suc, ◌+◌, ◌≤◌, ◌<◌, ◌≡◌, [], ◌∷◌, Bool, false, Option, some, arith, Bool-cases, inl, inr,
  if◌then◌else◌, is_some, lookup, insert,
}
use micromux.Model.{ServiceId, ExitCode, negsuc}
use micromux.Service.{Service, ServiceMap}
use micromux.Runtime.{Clock, ServiceRuntime}
use micromux.Session.{Runtimes, Session}
use micromux.Schedule.{check_runtime, consider}
use micromux.Runtime.Methods.{mark_started, allocate_run_id}
use micromux.Runtime.Finish.{finish_failed_start}
use micromux.Schedule.Start.{Spawn, prepare_start, unblocked}
use micromux.Schedule.Loop.{visit, pass, schedule_ready, record_stable_dependency_blocks}
use micromux.Schedule.Visit.{
  Visit, skipped, freed, held, absent, failed, begun, numbered, new_run, live_run,
}
use micromux.Schedule.Visited.{visit-Visit}

-- 1 for a service without a process.
abbrev pub idle : ServiceRuntime → ℕ
idle r = if is_some r.running then 0 else 1

unfoldable pub idle_count : Runtimes → ℕ
idle_count [] = 0
idle_count ((id, r) ∷ m) = idle r + idle_count m

pub idle_count-insert :
    (id : ServiceId) (r : ServiceRuntime) (v : ServiceRuntime) (m : Runtimes)
    → lookup id m ≡ some r
    → idle_count (insert id v m) + idle r ≡ idle_count m + idle v
unfolding idle_count insert lookup
idle_count-insert id r v [] e = cc
idle_count-insert id r v ((j, w) ∷ m) e = ground (arith, idle_count-insert id r v m)

pub check_idle :
    (now : ℕ) (service : Service) (r : ServiceRuntime) (exited_code : Option ExitCode)
    → check_runtime now service r ≡ consider exited_code
    → is_some r.running ≡ false
unfolding check_runtime
check_idle now service r exited_code h = ground arith

failed_idle :
    (clock : Clock) (service : Service) (r : ServiceRuntime) (exited_code : Option ExitCode)
    → idle (
        finish_failed_start clock service.spec.restart
          (new_run service exited_code r)
          (negsuc 0)
          (numbered service exited_code r))
      ≡ idle r
unfolding finish_failed_start allocate_run_id prepare_start
failed_idle clock service r exited_code = ground arith

-- A visit that starts a service takes one from the services without a process; no other visit
-- adds one.
Visit_idle :
    (spawn : Spawn) (clock : Clock) (id : ServiceId) (service : Service) (m m' : Runtimes)
    (started : Bool)
    → Visit spawn clock id service m m' started
    → idle_count m' + (if started then 1 else 0) ≤ idle_count m
unfolding mark_started
Visit_idle spawn clock id service m m' started (skipped c b e) = rw (b, e) (omega arith)
Visit_idle spawn clock id service m m' started (freed r c b l e) =
    rw (b, e) (omega (arith, idle_count-insert id r (unblocked r) m l))
Visit_idle spawn clock id service m m' started (held d b e) = rw (b, e) (omega arith)
Visit_idle spawn clock id service m m' started (absent l b e) = rw (b, e) (omega arith)
Visit_idle spawn clock id service m m' started (failed r exited_code c d l b e) =
    rw (b, e) (omega (arith, idle_count-insert id r _ m l, failed_idle clock service r exited_code))
Visit_idle spawn clock id service m m' started (begun r exited_code pty c d l b e) =
    rw (b, e)
      (ground (
        arith,
        check_idle clock.now service r exited_code c,
        idle_count-insert id r
            (mark_started clock (live_run clock (new_run service exited_code r) pty)
              (numbered service exited_code r))
            m l,
      ))

module _ (spawn : Spawn) where
  pass_idle :
      (clock : Clock) (services : ServiceMap) (s : Session)
      → let (s', started) = pass spawn clock services s in
        idle_count s'.runtimes + (if started then 1 else 0) ≤ idle_count s.runtimes
  unfolding pass
  pass_idle clock [] s = omega arith
  pass_idle clock ((id, service) ∷ services) s =
      let (s', started) = visit spawn clock id service s in
      ground (
        arith,
        Visit_idle spawn clock id service s.runtimes s'.runtimes started
            (visit-Visit spawn clock id service s),
        pass_idle clock services s',
      )

  -- With one more round of fuel than there are services without a process, `schedule_ready` ends,
  -- whatever the spawns answer and the clocks read.
  pub schedule_ready_total :
      (clocks : ℕ → Clock) (services : ServiceMap) (fuel round : ℕ) (s : Session)
      → idle_count s.runtimes < fuel
      → (s' : Session) × (schedule_ready spawn clocks services fuel round s ≡ some s')
  unfolding schedule_ready
  schedule_ready_total clocks services zero round s h = absurd (omega arith)
  schedule_ready_total clocks services (suc fuel) round s h =
      let (s', started) = pass spawn (clocks round) services s in
      elim (Bool-cases started) [
        | inl again ↦ rw again (
            schedule_ready_total clocks services fuel (suc round) s'
              (ground (arith, pass_idle (clocks round) services s)))
        | inr over ↦ (record_stable_dependency_blocks (clocks round) services s', rw over)
      ]
