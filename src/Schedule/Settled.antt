-- ===== src/Schedule/Settled.antt =====
-- crates/micromux/src/scheduler/schedule.rs: a pass that starts nothing.
use micromux.Prelude.{
  ℕ, ◌≡◌, ◌≢◌, refl, sym, subst, ◌∙◌, List, [], ◌∷◌, Bool, false, ◌||◌, none, arith, Bool-cases,
  inl, inr, All, lookup, text_eq, text_eq_back,
}
use mathlib.Core.Bool.{false≢true}
use micromux.Model.{ServiceId}
use micromux.Service.{Service, ServiceMap, DependencySpec}
use micromux.Runtime.{Clock, ServiceRuntime}
use micromux.Session.{Runtimes, Session}
use micromux.Schedule.{skip, check_runtime, should_consider_start, blocking_dependencies}
use micromux.Schedule.Start.{Spawn, unblocked}
use micromux.Schedule.Loop.{visit, pass}
use micromux.Schedule.Visit.{Visit, skipped, freed, held, absent, failed, begun}
use micromux.Schedule.Visited.{visit-Visit, check-eq}
use micromux.Schedule.Valid.{AreValid, lookup-IsValid, Visit-AreValid}
use micromux.Schedule.Startable.{
  startable, is_free, startable-insert_ne, startable-insert_self, failed_skip, failed_blocks,
}

skip-startable :
    (now : ℕ) (m : Runtimes) (id : ServiceId) (service : Service)
    → should_consider_start now m id service ≡ skip
    → startable now m id service ≡ false
unfolding startable
skip-startable now m id service h = rw h

unblocked-check :
    (now : ℕ) (service : Service) (r : ServiceRuntime)
    → check_runtime now service (unblocked r) ≡ check_runtime now service r
unfolding check_runtime
unblocked-check now service r = ground arith

not_free : (deps : List DependencySpec) → deps ≢ [] → is_free deps ≡ false
not_free [] h = absurd (h refl)
not_free (dep ∷ deps) h = refl

absent-check :
    (now : ℕ) (m : Runtimes) (id : ServiceId) (service : Service)
    → lookup id m ≡ none
    → should_consider_start now m id service ≡ skip
unfolding should_consider_start
absent-check now m id service e = rw (e, should_consider_start)

-- A visit that starts nothing leaves a service that cannot be started.
Visit_settles :
    (spawn : Spawn) (clock : Clock) (id : ServiceId) (service : Service) (m m' : Runtimes)
    → Visit spawn clock id service m m' false
    → AreValid m
    → startable clock.now m' id service ≡ false
unfolding startable
Visit_settles spawn clock id service m m' (skipped c b e) v =
    rw e (skip-startable clock.now m id service c)
Visit_settles spawn clock id service m m' (freed r c b l e) v = rw e (
    startable-insert_self clock.now id service (unblocked r) m
      (unblocked-check clock.now service r ∙ sym (check-eq clock id service r m l) ∙ c))
Visit_settles spawn clock id service m m' (held d b e) v =
    rw e (ground (arith, not_free (blocking_dependencies m service) d))
Visit_settles spawn clock id service m m' (absent l b e) v =
    rw e (skip-startable clock.now m id service (absent-check clock.now m id service l))
Visit_settles spawn clock id service m m' (failed r exited_code c d l b e) v = rw e (
    startable-insert_self clock.now id service _ m
      (failed_skip clock service exited_code r (lookup-IsValid id m r v l) c))
Visit_settles spawn clock id service m m' (begun r exited_code pty c d l b e) v = cc

-- It does not make another service one that can be started.
Visit_keeps :
    (spawn : Spawn) (clock : Clock) (id jd : ServiceId) (service other : Service) (m m' : Runtimes)
    → Visit spawn clock id service m m' false
    → text_eq id jd ≡ false
    → startable clock.now m jd other ≡ false
    → startable clock.now m' jd other ≡ false
Visit_keeps spawn clock id jd service other m m' (skipped c b e) ne h = rw e h
Visit_keeps spawn clock id jd service other m m' (freed r c b l e) ne h =
    rw e (startable-insert_ne clock.now id jd other r (unblocked r) m ne l (λ condition t. t) h)
Visit_keeps spawn clock id jd service other m m' (held d b e) ne h = rw e h
Visit_keeps spawn clock id jd service other m m' (absent l b e) ne h = rw e h
Visit_keeps spawn clock id jd service other m m' (failed r exited_code c d l b e) ne h = rw e (
    startable-insert_ne clock.now id jd other r _ m ne l (failed_blocks clock service exited_code r)
      h)
Visit_keeps spawn clock id jd service other m m' (begun r exited_code pty c d l b e) ne h = cc

-- The ids of a service map differ.
abbrev pub AreDistinct : ServiceMap → Type 0
AreDistinct [] = Unit
AreDistinct ((id, service) ∷ services) =
    All (λ e. text_eq id e.0 ≡ false) services × AreDistinct services

abbrev pub AreSettled : (now : ℕ) → Runtimes → ServiceMap → Type 0
AreSettled now m services = All (λ e. startable now m e.0 e.1 ≡ false) services

neither : (a b : Bool) → (a || b) ≡ false → (a ≡ false) × (b ≡ false)
neither a b h = ground arith

text_eq_sym : (s t : ServiceId) → text_eq s t ≡ false → text_eq t s ≡ false
text_eq_sym s t h = elim (Bool-cases (text_eq t s)) [
  | inl same ↦ absurd (false≢true (sym h ∙ text_eq_back s t same))
  | inr other ↦ other
]

pass_keeps :
    (spawn : Spawn) (clock : Clock) (services : ServiceMap) (jd : ServiceId) (other : Service)
    (s : Session)
    → All (λ e. text_eq jd e.0 ≡ false) services
    → (pass spawn clock services s).1 ≡ false
    → startable clock.now s.runtimes jd other ≡ false
    → startable clock.now (pass spawn clock services s).0.runtimes jd other ≡ false
unfolding pass
pass_keeps spawn clock [] jd other s d h t = t
pass_keeps spawn clock ((id, service) ∷ services) jd other s d h t =
    let (s', started) = visit spawn clock id service s in
    let (quiet, later) = neither started (pass spawn clock services s').1 h in
    let seen : Visit spawn clock id service s.runtimes s'.runtimes false =
      subst (Visit spawn clock id service s.runtimes s'.runtimes) quiet
        (visit-Visit spawn clock id service s) in
    pass_keeps spawn clock services jd other s' d.1 later (
      Visit_keeps spawn clock id jd service other s.runtimes s'.runtimes seen
        (text_eq_sym jd id d.0) t)

-- A pass that starts nothing leaves no service that could be started.
pub pass_settles :
    (spawn : Spawn) (clock : Clock) (services : ServiceMap) (s : Session)
    → AreDistinct services
    → AreValid s.runtimes
    → (pass spawn clock services s).1 ≡ false
    → AreSettled clock.now (pass spawn clock services s).0.runtimes services
unfolding pass
pass_settles spawn clock [] s d v h = tt
pass_settles spawn clock ((id, service) ∷ services) s d v h =
    let (s', started) = visit spawn clock id service s in
    let (quiet, later) = neither started (pass spawn clock services s').1 h in
    let seen : Visit spawn clock id service s.runtimes s'.runtimes false =
      subst (Visit spawn clock id service s.runtimes s'.runtimes) quiet
        (visit-Visit spawn clock id service s) in
    let v' = Visit-AreValid spawn clock id service s.runtimes s'.runtimes false seen v in
    (
      pass_keeps spawn clock services id service s' d.0 later
          (Visit_settles spawn clock id service s.runtimes s'.runtimes seen v),
      pass_settles spawn clock services s' d.1 v' later,
    )
