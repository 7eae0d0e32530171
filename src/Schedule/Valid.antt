-- ===== src/Schedule/Valid.antt =====
-- crates/micromux/src/scheduler/schedule.rs: scheduling and the invariant of the runtimes.
use micromux.Prelude.{
  ℕ, zero, suc, ◌≡◌, subst, List, [], ◌∷◌, Bool, Option, none, some, arith, Bool-cases,
  Option-cases, map, inl, inr, All, lookup, insert, text_eq,
}
use micromux.Model.{ServiceId, ExitCode, negsuc}
use micromux.Service.{Service, ServiceMap, DependencySpec}
use micromux.Runtime.{Clock, ServiceRuntime}
use micromux.Runtime.Methods.{mark_started, allocate_run_id}
use micromux.Runtime.Finish.{finish_failed_start}
use micromux.Runtime.Invariant.{IsValid}
use micromux.Session.{Runtimes, Session}
use micromux.Schedule.{
  StartCheck, check_runtime, skip, consider, should_consider_start, blocking_dependencies,
}
use micromux.Schedule.Start.{
  Spawn, StartedPty, prepare_start, unblocked, blocked_by, ids_eq, record_dependency_block,
}
use micromux.Schedule.Loop.{
  visit, pass, schedule_ready, record_block_of, record_stable_dependency_blocks,
}
use micromux.Schedule.Visit.{
  Visit, skipped, freed, held, absent, failed, begun, numbered, new_run, live_run,
}
use micromux.Schedule.Visited.{visit-Visit}

-- Every runtime is well formed.
abbrev pub AreValid : Runtimes → Type 0
AreValid m = All (λ e. IsValid e.1) m

found : (w r : ServiceRuntime) → some w ≡ some r → w ≡ r
found w r e = cc

pub lookup-IsValid :
    (id : ServiceId) (m : Runtimes) (r : ServiceRuntime)
    → AreValid m
    → lookup id m ≡ some r
    → IsValid r
unfolding lookup
lookup-IsValid id [] r v e = cc
lookup-IsValid id ((j, w) ∷ m) r v e = elim (Bool-cases (text_eq j id)) [
  | inl same ↦ subst IsValid (found w r (rw same at e)) v.0
  | inr other ↦ lookup-IsValid id m r v.1 (rw other at e)
]

pub insert-AreValid :
    (id : ServiceId) (r : ServiceRuntime) (m : Runtimes)
    → IsValid r
    → AreValid m
    → AreValid (insert id r m)
unfolding insert
insert-AreValid id r [] v all = (v, tt)
insert-AreValid id r ((j, w) ∷ m) v all = elim (Bool-cases (text_eq j id)) [
  | inl same ↦ rw same (v, all.1)
  | inr other ↦ rw other (all.0, insert-AreValid id r m v all.1)
]

started-IsValid :
    (clock : Clock) (service : Service) (exited_code : Option ExitCode) (pty : StartedPty)
    (r : ServiceRuntime)
    → check_runtime clock.now service r ≡ consider exited_code
    → IsValid r
    → IsValid (
        mark_started clock
          (live_run clock (new_run service exited_code r) pty)
          (numbered service exited_code r))
unfolding mark_started allocate_run_id prepare_start check_runtime
started-IsValid clock service exited_code pty r c v = ground arith

failed-IsValid :
    (clock : Clock) (service : Service) (exited_code : Option ExitCode) (r : ServiceRuntime)
    → check_runtime clock.now service r ≡ consider exited_code
    → IsValid r
    → IsValid (
        finish_failed_start clock service.spec.restart
          (new_run service exited_code r)
          (negsuc 0)
          (numbered service exited_code r))
unfolding finish_failed_start allocate_run_id prepare_start check_runtime
failed-IsValid clock service exited_code r c v = ground arith

unblocked-IsValid : (r : ServiceRuntime) → IsValid r → IsValid (unblocked r)
unblocked-IsValid r v = ground arith

blocked_by-IsValid :
    (ids : List ServiceId) (r : ServiceRuntime) → IsValid r → IsValid (blocked_by ids r)
blocked_by-IsValid ids r v = ground arith

pub same_session : {s t : Session} → some s ≡ some t → s ≡ t
same_session e = cc

pub Visit-AreValid :
    (spawn : Spawn) (clock : Clock) (id : ServiceId) (service : Service) (m m' : Runtimes)
    (started : Bool)
    → Visit spawn clock id service m m' started
    → AreValid m
    → AreValid m'
Visit-AreValid spawn clock id service m m' started (skipped c b e) v = rw e v
Visit-AreValid spawn clock id service m m' started (freed r c b l e) v =
    rw e (insert-AreValid id (unblocked r) m (unblocked-IsValid r (lookup-IsValid id m r v l)) v)
Visit-AreValid spawn clock id service m m' started (held d b e) v = rw e v
Visit-AreValid spawn clock id service m m' started (absent l b e) v = rw e v
Visit-AreValid spawn clock id service m m' started (failed r exited_code c d l b e) v = rw e (
    insert-AreValid id _ m
      (failed-IsValid clock service exited_code r c (lookup-IsValid id m r v l)) v)
Visit-AreValid spawn clock id service m m' started (begun r exited_code pty c d l b e) v = rw e (
    insert-AreValid id _ m
      (started-IsValid clock service exited_code pty r c (lookup-IsValid id m r v l)) v)

pub record_block_absent :
    (clock : Clock) (id : ServiceId) (service : Service) (blocked : List DependencySpec)
    (s : Session)
    → lookup id s.runtimes ≡ none
    → record_dependency_block clock id service blocked s ≡ s
unfolding record_dependency_block
record_block_absent clock id service blocked s e = rw (e, record_dependency_block)

record_block_at :
    (clock : Clock) (id : ServiceId) (service : Service) (blocked : List DependencySpec)
    (r : ServiceRuntime) (s : Session)
    → lookup id s.runtimes ≡ some r
    → AreValid s.runtimes
    → AreValid (record_dependency_block clock id service blocked s).runtimes
unfolding record_dependency_block
record_block_at clock id service blocked r s e v =
    let ids = map (λ (dep : DependencySpec). dep.service) blocked in
    let valid = blocked_by-IsValid ids r (lookup-IsValid id s.runtimes r v e) in
    rw (e, record_dependency_block)
      (elim (Bool-cases (ids_eq r.blocked_on ids)) [
        | inl same ↦ rw same v
        | inr other ↦ rw other (insert-AreValid id (blocked_by ids r) s.runtimes valid v)
      ])

record_block-AreValid :
    (clock : Clock) (id : ServiceId) (service : Service) (blocked : List DependencySpec)
    (s : Session)
    → AreValid s.runtimes
    → AreValid (record_dependency_block clock id service blocked s).runtimes
record_block-AreValid clock id service blocked s v = elim (Option-cases (lookup id s.runtimes)) [
  | inl e ↦ rw (record_block_absent clock id service blocked s e) v
  | inr (r, e) ↦ record_block_at clock id service blocked r s e v
]

stable_block-AreValid :
    (clock : Clock) (id : ServiceId) (service : Service) (check : StartCheck)
    (blocked : List DependencySpec) (s : Session)
    → AreValid s.runtimes
    → AreValid (record_block_of clock id service check blocked s).runtimes
stable_block-AreValid clock id service skip blocked s v = v
stable_block-AreValid clock id service (consider exited_code) [] s v = v
stable_block-AreValid clock id service (consider exited_code) (dep ∷ deps) s v =
    record_block-AreValid clock id service (dep ∷ deps) s v

module _ (spawn : Spawn) where
  pub pass-AreValid :
      (clock : Clock) (services : ServiceMap) (s : Session)
      → AreValid s.runtimes
      → AreValid (pass spawn clock services s).0.runtimes
  unfolding pass
  pass-AreValid clock [] s v = v
  pass-AreValid clock ((id, service) ∷ services) s v =
      let (s', started) = visit spawn clock id service s in
      pass-AreValid clock services s' (
        Visit-AreValid spawn clock id service s.runtimes s'.runtimes started
          (visit-Visit spawn clock id service s) v)

stable-AreValid :
    (clock : Clock) (services : ServiceMap) (s : Session)
    → AreValid s.runtimes
    → AreValid (record_stable_dependency_blocks clock services s).runtimes
unfolding record_stable_dependency_blocks
stable-AreValid clock [] s v = v
stable-AreValid clock ((id, service) ∷ services) s v = stable-AreValid clock services _ (
    stable_block-AreValid clock id service (should_consider_start clock.now s.runtimes id service)
      (blocking_dependencies s.runtimes service) s v)

-- When every runtime is well formed, every runtime is so after `schedule_ready` returns, whatever
-- the spawns answer.
pub schedule_ready-AreValid :
    (spawn : Spawn) (clocks : ℕ → Clock) (services : ServiceMap) (fuel round : ℕ) (s : Session)
    {s' : Session}
    → AreValid s.runtimes
    → schedule_ready spawn clocks services fuel round s ≡ some s'
    → AreValid s'.runtimes
unfolding schedule_ready
schedule_ready-AreValid spawn clocks services zero round s v e = cc
schedule_ready-AreValid spawn clocks services (suc fuel) round s v e =
    let (next, started) = pass spawn (clocks round) services s in
    let valid = pass-AreValid spawn (clocks round) services s v in
    elim (Bool-cases started) [
      | inl again ↦
          schedule_ready-AreValid spawn clocks services fuel (suc round) next valid (rw again at e)
      | inr over ↦
          subst (λ (t : Session). AreValid t.runtimes) (same_session (rw over at e))
            (stable-AreValid (clocks round) services next valid)
    ]
