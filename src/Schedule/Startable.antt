-- ===== src/Schedule/Startable.antt =====
-- Whether a service can be started now, and how a change of one runtime bears on it.
use micromux.Prelude.{
  ℕ, ◌≡◌, List, [], ◌∷◌, Bool, true, false, ◌&&◌, Option, some, arith, Bool-cases, inl, inr, keep,
  lookup, insert, text_eq, text_eq_iff_lem, lookup-insert, lookup-insert_self,
}
use micromux.Model.{ServiceId, ExitCode, negsuc}
use micromux.Service.{Service, DependencyCondition, DependencySpec}
use micromux.Runtime.{Clock, ServiceRuntime}
use micromux.Runtime.Methods.{allocate_run_id}
use micromux.Runtime.Finish.{finish_failed_start}
use micromux.Runtime.Invariant.{IsValid}
use micromux.Session.{Runtimes}
use micromux.Schedule.{
  StartCheck, skip, consider, check_runtime, should_consider_start, runtime_blocks, blocks,
  blocking_dependencies,
}
use micromux.Schedule.Start.{prepare_start}
use micromux.Schedule.Visit.{numbered, new_run}

abbrev pub is_consider : StartCheck → Bool
is_consider skip = false
is_consider (consider exited_code) = true

abbrev pub is_free : List DependencySpec → Bool
is_free [] = true
is_free (dep ∷ deps) = false

-- A candidate for a start that no dependency holds back.
unfoldable pub startable : (now : ℕ) → Runtimes → ServiceId → Service → Bool
startable now m id service =
    is_consider (should_consider_start now m id service)
    && is_free (blocking_dependencies m service)

is_free-keep :
    (p q : DependencySpec → Bool) (deps : List DependencySpec)
    → ((dep : DependencySpec) → p dep ≡ true → q dep ≡ true)
    → is_free (keep p deps) ≡ false
    → is_free (keep q deps) ≡ false
is_free-keep p q [] h e = e
is_free-keep p q (dep ∷ deps) h e = ground (arith, h dep, is_free-keep p q deps h)

-- The new runtime of a service holds back whatever the old one did.
abbrev pub BlocksMore : ServiceRuntime → ServiceRuntime → Type 0
BlocksMore r v =
    (condition : DependencyCondition)
    → runtime_blocks condition r ≡ true
    → runtime_blocks condition v ≡ true

blocks_found :
    (dep : DependencySpec) (r : ServiceRuntime) (m : Runtimes)
    → lookup dep.service m ≡ some r
    → blocks m dep ≡ true
    → runtime_blocks dep.condition r ≡ true
unfolding blocks
blocks_found dep r m e h = rw e at h

blocks-insert :
    (id : ServiceId) (r v : ServiceRuntime) (m : Runtimes) (dep : DependencySpec)
    → lookup id m ≡ some r
    → BlocksMore r v
    → blocks m dep ≡ true
    → blocks (insert id v m) dep ≡ true
unfolding blocks
blocks-insert id r v m dep e more h =
    rw (lookup-insert id dep.service v m) (elim (Bool-cases (text_eq id dep.service)) [
      | inl same ↦ rw same (
          more dep.condition
            (blocks_found dep r m (rw (text_eq_iff_lem id dep.service same) at e) h))
      | inr other ↦ rw other h
    ])

-- A service that could not be started still cannot, after such a change of another service.
pub startable-insert_ne :
    (now : ℕ) (id jd : ServiceId) (service : Service) (r v : ServiceRuntime) (m : Runtimes)
    → text_eq id jd ≡ false
    → lookup id m ≡ some r
    → BlocksMore r v
    → startable now m jd service ≡ false
    → startable now (insert id v m) jd service ≡ false
unfolding startable blocking_dependencies should_consider_start
startable-insert_ne now id jd service r v m ne e more h = rw (lookup-insert id jd v m) (
    rw ne (
      ground (
        arith,
        is_free-keep (blocks m) (blocks (insert id v m)) service.spec.depends_on
            (λ dep. blocks-insert id r v m dep e more),
      )))

pub startable-insert_self :
    (now : ℕ) (id : ServiceId) (service : Service) (v : ServiceRuntime) (m : Runtimes)
    → check_runtime now service v ≡ skip
    → startable now (insert id v m) id service ≡ false
unfolding startable should_consider_start
startable-insert_self now id service v m h = rw (lookup-insert_self id v m) (rw h)

-- A failed start parks the service: it is no candidate at the same time, and it holds back every
-- service that waits for it.
pub failed_skip :
    (clock : Clock) (service : Service) (exited_code : Option ExitCode) (r : ServiceRuntime)
    → IsValid r
    → check_runtime clock.now service r ≡ consider exited_code
    → check_runtime clock.now service (
        finish_failed_start clock service.spec.restart
          (new_run service exited_code r)
          (negsuc 0)
          (numbered service exited_code r))
      ≡ skip
unfolding check_runtime finish_failed_start allocate_run_id prepare_start
failed_skip clock service exited_code r v c = ground arith

pub failed_blocks :
    (clock : Clock) (service : Service) (exited_code : Option ExitCode) (r : ServiceRuntime)
    → BlocksMore r (
        finish_failed_start clock service.spec.restart
          (new_run service exited_code r)
          (negsuc 0)
          (numbered service exited_code r))
unfolding finish_failed_start allocate_run_id prepare_start
failed_blocks clock service exited_code r condition h = ground arith

-- A change that the start checks do not see makes no service one that can be started.
pub startable-insert_alike :
    (now : ℕ) (id : ServiceId) (service : Service) (r v : ServiceRuntime) (m : Runtimes)
    → lookup id m ≡ some r
    → BlocksMore r v
    → check_runtime now service v ≡ check_runtime now service r
    → startable now m id service ≡ false
    → startable now (insert id v m) id service ≡ false
unfolding startable blocking_dependencies should_consider_start
startable-insert_alike now id service r v m e more alike h =
    let before = rw e at h in
    rw (lookup-insert_self id v m) (
      rw alike (
        ground (
          arith,
          before,
          is_free-keep (blocks m) (blocks (insert id v m)) service.spec.depends_on
              (λ dep. blocks-insert id r v m dep e more),
        )))
