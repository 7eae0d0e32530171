-- ===== src/Restart/Budget.antt =====
-- crates/micromux/src/scheduler.rs: the failure budget of a tracker and the policy of its service.
use micromux.Prelude.{ℕ, ◌≤◌, ◌≡◌, Bool, arith, is_some, map_or}
use micromux.Restart.{
  RestartPolicy, RestartTracker, on_failure_max_of, new_tracker, reconfigure_tracker,
  reset_failure_budget, apply_backoff, decrement_failure_restart,
}

-- The tracker holds the policy's maximum, and no more restarts than that are left.
pub record Follows (policy : RestartPolicy) (t : RestartTracker) : Type 0 where
  pub same : t.on_failure_max ≡ on_failure_max_of policy
  pub counted : is_some t.on_failure_remaining ≡ is_some t.on_failure_max
  pub bounded : map_or t.on_failure_remaining 0 (λ n. n) ≤ map_or t.on_failure_max 0 (λ n. n)

new_tracker-Follows : (policy : RestartPolicy) → Follows policy (new_tracker policy)
unfolding new_tracker
new_tracker-Follows policy = ground arith

-- A new policy is followed whatever policy the tracker followed.
reconfigure_tracker-Follows :
    (old policy : RestartPolicy) (t : RestartTracker)
    → Follows old t
    → Follows policy (reconfigure_tracker policy t)
unfolding reconfigure_tracker
reconfigure_tracker-Follows old policy t f = ground arith

reset_failure_budget-Follows :
    (policy : RestartPolicy) (t : RestartTracker)
    → Follows policy t
    → Follows policy (reset_failure_budget t)
unfolding reset_failure_budget
reset_failure_budget-Follows policy t f = ground arith

apply_backoff-Follows :
    (now : ℕ) (stable : Bool) (policy : RestartPolicy) (t : RestartTracker)
    → Follows policy t
    → Follows policy (apply_backoff now stable t)
unfolding apply_backoff
apply_backoff-Follows now stable policy t f = ground arith

decrement_failure_restart-Follows :
    (policy : RestartPolicy) (t : RestartTracker)
    → Follows policy t
    → Follows policy (decrement_failure_restart policy t)
unfolding decrement_failure_restart on_failure_max_of
decrement_failure_restart-Follows policy t f = ground arith
