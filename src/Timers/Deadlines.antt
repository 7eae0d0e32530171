-- ===== src/Timers/Deadlines.antt =====
-- crates/micromux/src/scheduler.rs: what the wait of the main loop for a backoff covers.
use micromux.Prelude.{
  ℕ, ◌≡◌, refl, [], ◌∷◌, Bool, true, none, some, arith, ltb, leb, map_or, All, filter_map, least,
  keep, lookup,
}
use micromux.Model.{ServiceId}
use micromux.Service.{Service}
use micromux.Runtime.{ServiceRuntime}
use micromux.Session.{Runtimes}
use micromux.Schedule.{check_runtime, should_consider_start}
use micromux.Schedule.Startable.{is_consider}
use micromux.Timers.{next_backoff, is_due, has_due_auto_restart}

-- The backoff of the runtime has ended, or there is none.
abbrev pub is_over : (now : ℕ) → ServiceRuntime → Bool
is_over now r = map_or r.restart.backoff_until true (λ deadline. leb deadline now)

none_later :
    (now : ℕ) (m : Runtimes)
    → All (λ e. is_over now e.1 ≡ true) m
    → keep (ltb now) (filter_map (λ (e : ServiceId × ServiceRuntime). e.1.restart.backoff_until) m)
      ≡ []
none_later now [] h = refl
none_later now ((id, r) ∷ m) h = ground (arith, none_later now m h.1, h.0)

due-consider :
    (now : ℕ) (service : Service) (r : ServiceRuntime)
    → is_due now service r ≡ true
    → is_consider (check_runtime now service r) ≡ true
unfolding check_runtime
due-consider now service r h = ground arith

-- When no backoff ends in the future and an automatic restart is due, a scheduling pass would take
-- the service for a candidate, but the main loop waits for no backoff: nothing but another event
-- leads to that pass.
pub next_backoff-misses :
    (now : ℕ) (id : ServiceId) (service : Service) (r : ServiceRuntime) (m : Runtimes)
    → lookup id m ≡ some r
    → All (λ e. is_over now e.1 ≡ true) m
    → is_due now service r ≡ true
    → (next_backoff now m ≡ none)
      × ((is_consider (should_consider_start now m id service) ≡ true)
          × (has_due_auto_restart now ((id, service) ∷ []) m ≡ true))
unfolding next_backoff least should_consider_start has_due_auto_restart
next_backoff-misses now id service r m l over due =
    (rw (none_later now m over) refl, (rw l (due-consider now service r due), rw l (rw due refl)))
