-- ===== src/Timers/Over.antt =====
-- crates/micromux/src/scheduler.rs: the runtime of a service whose lease is over.
use micromux.Prelude.{
  ℕ, ◌≡◌, ◌≤◌, refl, [], ◌∷◌, true, false, arith, ◌⊎◌, Option, none, some, Option-cases,
  if◌then◌else◌, Bool-cases, inl, inr,
}
use micromux.Model.{RetiredReason}
use micromux.Restart.{clear_backoff}
use micromux.Runtime.{Clock, DesiredState, State, RunningService, cancel, ServiceRuntime}
use micromux.Runtime.Methods.{disable}
use micromux.Session.{Runtimes}
use micromux.Timers.{has_expired, retired_for}

abbrev pub retire_if : Clock → ServiceRuntime → ServiceRuntime
retire_if clock r = if has_expired clock.now r then retired_for clock RetiredReason.expired r else r

-- A lease that the service still has is over.
abbrev pub IsOver : (now : ℕ) → ServiceRuntime → Type 0
IsOver now r = (r.retired ≡ none) × ((d : ℕ) × (r.expires_at ≡ some d) × (d ≤ now))

abbrev pub told_to_end : Option RunningService → Option RunningService
told_to_end none = none
told_to_end (some live) = some (record live { terminate = true })

-- The runtime of a service whose lease was over, field by field.
abbrev pub over_runtime : Clock → ServiceRuntime → ServiceRuntime
over_runtime clock r = record {
  desired = DesiredState.disabled;
  start_requested = false;
  clear_logs_on_start = false;
  next_run_id = r.next_run_id;
  running = told_to_end r.running;
  restart = record {
    backoff_until = none;
    backoff_delay = none;
    on_failure_max = r.restart.on_failure_max;
    on_failure_remaining = r.restart.on_failure_remaining;
  };
  state = State.disabled;
  last_run_id = r.last_run_id;
  uptime_started_at = r.uptime_started_at;
  started_at_unix_ms = r.started_at_unix_ms;
  last_exit_code = r.last_exit_code;
  run_config = r.run_config;
  draining_log_readers = r.draining_log_readers;
  retired = some RetiredReason.expired;
  retired_at_unix_ms = clock.unix_ms;
  expires_at = none;
  blocked_on = r.blocked_on;
  input_drops = r.input_drops;
}

abbrev pub IsAtExpiry : Clock → ServiceRuntime → ServiceRuntime → Type 0
IsAtExpiry clock r r' =
    (IsOver clock.now r × (r' ≡ over_runtime clock r)) ⊎ (¬ IsOver clock.now r × (r' ≡ r))

abbrev pub IsAfterExpiry : Clock → Runtimes → Runtimes → Type 0
IsAfterExpiry clock [] [] = Unit
IsAfterExpiry clock ((id, r) ∷ m) ((id', r') ∷ m') =
    (id' ≡ id) × IsAtExpiry clock r r' × IsAfterExpiry clock m m'
IsAfterExpiry clock _ _ = ⊥

disable-over :
    (clock : Clock) (r : ServiceRuntime)
    → retired_for clock RetiredReason.expired r ≡ over_runtime clock r
unfolding disable clear_backoff cancel
disable-over clock r = elim (Option-cases r.running) [
  | inl stopped ↦ rw stopped
  | inr (live, e) ↦ rw e
]

has_expired-IsOver : (now : ℕ) (r : ServiceRuntime) → has_expired now r ≡ true → IsOver now r
has_expired-IsOver now r h = elim (Option-cases r.retired) [
  | inr (reason, gone) ↦ absurd (ground (arith, h, gone))
  | inl kept ↦ elim (Option-cases r.expires_at) [
    | inl no_lease ↦ absurd (ground (arith, h, kept, no_lease))
    | inr (d, lease) ↦ (kept, (d, lease, ground (arith, h, kept, lease)))
  ]
]

IsOver-has_expired : (now : ℕ) (r : ServiceRuntime) → IsOver now r → has_expired now r ≡ true
IsOver-has_expired now r (kept, (d, lease, come)) = rw (kept, lease) (ground (arith, come))

pub retire_if-IsAtExpiry :
    (clock : Clock) (r : ServiceRuntime) → IsAtExpiry clock r (retire_if clock r)
retire_if-IsAtExpiry clock r = elim (Bool-cases (has_expired clock.now r)) [
  | inl over ↦ rw over (inl (has_expired-IsOver clock.now r over, disable-over clock r))
  | inr live ↦
      rw live (inr (λ over. ground (arith, live, IsOver-has_expired clock.now r over), refl))
]
