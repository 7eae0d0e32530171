-- ===== src/Runtime/Shown.antt =====
-- What the snapshot of a well-formed runtime says, for the readers of the session model.
use micromux.Prelude.{ℕ, ◌≡◌, Bool, true, false, arith, is_some, not, ◌&&◌, ◌||◌, if◌then◌else◌}
use micromux.Model.{Execution}
use micromux.Service.{Service}
use micromux.Runtime.{State, ServiceRuntime}
use micromux.Runtime.Methods.{is_disabled_desire, is_killed_state}
use micromux.Runtime.Projection.{project_snapshot, has_some}
use micromux.Runtime.Invariant.{IsValid}

-- What a reader is told of a service with a process, and of one without.
abbrev pub shown_live : ServiceRuntime → Execution
shown_live r =
    if is_killed_state r.state || is_disabled_desire r.desired
    then Execution.stopping
    else Execution.running

abbrev pub exited_before : ServiceRuntime → Bool
exited_before r = elim r.state [
  | State.exited exit_code ↦ true
  | State.disabled ↦ is_some r.last_run_id
  | _ ↦ false
]

abbrev pub shown_idle : ServiceRuntime → Execution
shown_idle r =
    if not (is_disabled_desire r.desired) && has_some r.blocked_on
    then Execution.blocked
    else if exited_before r
    then Execution.exited
    else Execution.pending

abbrev pub shown : ServiceRuntime → Execution
shown r = if is_some r.running then shown_live r else shown_idle r

-- A snapshot of a well-formed runtime shows `Running` or `Stopping` for a service with a process
-- (`Stopping` when it is being killed or is to be disabled). For one without it shows `Blocked`
-- when it is enabled and waits for dependencies, else `Exited` when it ended (or is disabled and
-- ran before), else `Pending`. A health is shown only of a running service, a pid and a
-- wall-clock start only of one with a process, and an uptime exactly of one with a process.
pub project_snapshot-shown :
    (now : ℕ) (service : Service) (r : ServiceRuntime)
    → IsValid r
    → let (snapshot, started_at) = project_snapshot now service r in
      (snapshot.execution ≡ shown r)
      × ((is_some snapshot.health ≡ true → snapshot.execution ≡ Execution.running)
          × ((is_some snapshot.pid ≡ true → is_some r.running ≡ true)
              × ((is_some started_at ≡ is_some r.running)
                  × (is_some snapshot.started_at_unix_ms ≡ true → is_some r.running ≡ true))))
unfolding project_snapshot
project_snapshot-shown now service r v = ground arith
