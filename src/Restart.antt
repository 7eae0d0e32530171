-- ===== src/Restart.antt =====
-- crates/micromux/src/scheduler.rs: `RestartTracker`, the backoff and the failure budget of one
-- service's automatic restarts, with `RestartPolicy` of crates/micromux/src/service.rs and
-- `RestartState` of crates/micromux/src/model.rs.
-- An instant and a duration are numbers of nanoseconds; each `Instant::now()` is an argument.
pub mod Backoff
pub mod Budget
mod Examples
use micromux.Prelude.{
  ℕ, ◌+◌, ◌-◌, ◌*◌, min, Bool, true, false, Option, none, some, ltb, ◌==◌, if◌then◌else◌, map_or,
  saturating_sub,
}

abbrev pub restart_backoff_base : ℕ
restart_backoff_base = 250_000_000

abbrev pub restart_backoff_max : ℕ
restart_backoff_max = 10_000_000_000

abbrev pub restart_backoff_reset : ℕ
restart_backoff_reset = restart_backoff_max

pub data RestartPolicy : Type 0 where
  always unless_stopped never : RestartPolicy
  on_failure : (max_attempts : Option ℕ) → RestartPolicy

pub record RestartState : Type 0 where
  pub backoff_delay : ℕ
  pub restarts_remaining : Option ℕ

pub record RestartTracker : Type 0 where
  pub backoff_until : Option ℕ
  pub backoff_delay : Option ℕ
  pub on_failure_max : Option ℕ
  pub on_failure_remaining : Option ℕ

unfoldable pub on_failure_max_of : RestartPolicy → Option ℕ
on_failure_max_of (on_failure (some max_attempts)) = some max_attempts
on_failure_max_of (on_failure none) = none
on_failure_max_of always = none
on_failure_max_of unless_stopped = none
on_failure_max_of never = none

unfoldable pub new_tracker : RestartPolicy → RestartTracker
unfolding on_failure_max_of
new_tracker policy = record {
  backoff_until = none;
  backoff_delay = none;
  on_failure_max = on_failure_max_of policy;
  on_failure_remaining = on_failure_max_of policy;
}

abbrev pub same_max : Option ℕ → Option ℕ → Bool
same_max none none = true
same_max (some a) (some b) = a == b
same_max _ _ = false

unfoldable pub reconfigure_tracker : RestartPolicy → RestartTracker → RestartTracker
unfolding on_failure_max_of
reconfigure_tracker policy t =
    let on_failure_max = on_failure_max_of policy in
    if same_max t.on_failure_max on_failure_max
    then t
    else record t { on_failure_max = on_failure_max; on_failure_remaining = on_failure_max }

unfoldable pub clear_backoff : RestartTracker → RestartTracker
clear_backoff t = record t { backoff_until = none; backoff_delay = none }

unfoldable pub reset_failure_budget : RestartTracker → RestartTracker
reset_failure_budget t = record t { on_failure_remaining = t.on_failure_max }

unfoldable pub apply_backoff : (now : ℕ) (stable : Bool) → RestartTracker → RestartTracker
unfolding reset_failure_budget
apply_backoff now stable t =
    let u = if stable then reset_failure_budget (record t { backoff_delay = none }) else t in
    let next =
      map_or u.backoff_delay restart_backoff_base (λ delay. min (delay * 2) restart_backoff_max) in
    record u { backoff_delay = some next; backoff_until = some (now + next) }

unfoldable pub remaining_failure_restarts : RestartPolicy → RestartTracker → Option ℕ
remaining_failure_restarts (on_failure (some max_attempts)) t =
    some (map_or t.on_failure_remaining max_attempts (λ remaining. remaining))
remaining_failure_restarts (on_failure none) t = none
remaining_failure_restarts always t = none
remaining_failure_restarts unless_stopped t = none
remaining_failure_restarts never t = none

unfoldable pub decrement_failure_restart : RestartPolicy → RestartTracker → RestartTracker
decrement_failure_restart (on_failure (some max_attempts)) t =
    let remaining = map_or t.on_failure_remaining max_attempts (λ r. r) in
    record t { on_failure_remaining = some (saturating_sub remaining 1) }
decrement_failure_restart (on_failure none) t = t
decrement_failure_restart always t = t
decrement_failure_restart unless_stopped t = t
decrement_failure_restart never t = t

abbrev active_state : ℕ → RestartPolicy → RestartTracker → Option ℕ → Option ℕ → Option RestartState
active_state now policy t (some deadline) (some backoff_delay) =
    if ltb now deadline
    then some (record {
      backoff_delay = backoff_delay;
      restarts_remaining = remaining_failure_restarts policy t;
    })
    else none
active_state now policy t _ _ = none

unfoldable pub active_restart_state :
    (now : ℕ) → RestartPolicy → RestartTracker → Option RestartState
unfolding remaining_failure_restarts
active_restart_state now policy t = active_state now policy t t.backoff_until t.backoff_delay
