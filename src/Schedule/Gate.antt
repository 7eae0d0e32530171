-- ===== src/Schedule/Gate.antt =====
-- What must hold for the scheduler to start a service, and what a start does to its run id.
use micromux.Prelude.{
  ℕ, ◌+◌, ◌<◌, ◌≡◌, refl, subst, List, [], ◌∷◌, Bool, true, false, Option, some, arith, Bool-cases,
  inl, inr, All, keep, lookup, lookup-insert_self, u64_max, is_some,
}
use micromux.Model.{ServiceId, ExitCode}
use micromux.Service.{Service, DependencySpec}
use micromux.Runtime.{Clock, ServiceRuntime}
use micromux.Runtime.Methods.{run_generation, allocate_run_id, mark_started}
use micromux.Session.{Runtimes, Session}
use micromux.Schedule.{consider, check_runtime, blocks, blocking_dependencies}
use micromux.Schedule.Start.{Spawn, prepare_start, decrement_failure_budget}
use micromux.Schedule.Loop.{visit}
use micromux.Schedule.Visit.{
  Visit, skipped, freed, held, absent, failed, begun, numbered, new_run, live_run,
}
use micromux.Schedule.Visited.{visit-Visit}

keep-All :
    (p : DependencySpec → Bool) (deps : List DependencySpec)
    → keep p deps ≡ []
    → All (λ dep. p dep ≡ false) deps
keep-All p [] h = tt
keep-All p (dep ∷ deps) h = elim (Bool-cases (p dep)) [
  | inl y ↦ ground (arith, y)
  | inr n ↦ (n, keep-All p deps (rw n at h))
]

-- What a runtime that was started shows.
pub record IsBegun (m m' : Runtimes) (now : ℕ) (id : ServiceId) (service : Service) : Type 0 where
  pub before : ServiceRuntime
  pub after : ServiceRuntime
  pub found : lookup id m ≡ some before
  pub stored : lookup id m' ≡ some after
  pub exited_code : Option ExitCode
  pub candidate : check_runtime now service before ≡ consider exited_code
  pub met : All (λ dep. blocks m dep ≡ false) service.spec.depends_on
  pub live : is_some after.running ≡ true
  pub generation : before.next_run_id < u64_max → run_generation after ≡ before.next_run_id + 1

Visit-IsBegun :
    (spawn : Spawn) (clock : Clock) (id : ServiceId) (service : Service) (m m' : Runtimes)
    → Visit spawn clock id service m m' true
    → IsBegun m m' clock.now id service
unfolding blocking_dependencies mark_started run_generation allocate_run_id prepare_start
    decrement_failure_budget
Visit-IsBegun spawn clock id service m m' (skipped c b e) = cc
Visit-IsBegun spawn clock id service m m' (freed r c b l e) = cc
Visit-IsBegun spawn clock id service m m' (held d b e) = cc
Visit-IsBegun spawn clock id service m m' (absent l b e) = cc
Visit-IsBegun spawn clock id service m m' (failed r exited_code c d l b e) = cc
Visit-IsBegun spawn clock id service m m' (begun r exited_code pty c d l b e) = record {
  before = r;
  after =
      mark_started clock (live_run clock (new_run service exited_code r) pty)
        (numbered service exited_code r);
  found = l;
  stored = rw e (lookup-insert_self id _ m);
  exited_code = exited_code;
  candidate = c;
  met = keep-All (blocks m) service.spec.depends_on d;
  live = refl;
  generation = λ room. ground arith;
}

-- A visit that reports a start found the service to be a candidate with every dependency met, and
-- leaves it with a process, whose generation is the next run id if that is in the range of `u64`.
pub visit_starts :
    (spawn : Spawn) (clock : Clock) (id : ServiceId) (service : Service) (s : Session)
    → (visit spawn clock id service s).1 ≡ true
    → IsBegun s.runtimes (visit spawn clock id service s).0.runtimes clock.now id service
visit_starts spawn clock id service s h = Visit-IsBegun spawn clock id service s.runtimes _ (
    subst (Visit spawn clock id service s.runtimes (visit spawn clock id service s).0.runtimes) h
      (visit-Visit spawn clock id service s))
