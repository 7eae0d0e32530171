-- ===== src/Schedule/Requests.antt =====
-- How the requests and the end of a run decide whether the scheduler starts a service again.
use micromux.Prelude.{
  ℕ, ◌≡◌, ◌<◌, true, false, not, ◌&&◌, some, arith, ltb, if◌then◌else◌, is_some, map_or,
}
use micromux.Restart.{RestartPolicy, on_failure_max_of}
use micromux.Restart.Budget.{Follows}
use micromux.Model.{ExitCode}
use micromux.Service.{Service}
use micromux.Runtime.{Clock, ServiceRuntime}
use micromux.Runtime.Methods.{request_restart, disable, is_disabled_desire}
use micromux.Runtime.Finish.{finish_current_run, will_auto_restart}
use micromux.Runtime.Invariant.{IsValid}
use micromux.Schedule.{skip, consider, check_runtime}
use micromux.Schedule.Startable.{is_consider}

-- The runtime when its process, if there is one, has ended with the code.
unfoldable pub ended : Clock → RestartPolicy → ExitCode → ServiceRuntime → ServiceRuntime
unfolding finish_current_run
ended clock policy exit_code r =
    if is_some r.running then finish_current_run clock policy exit_code r else r

-- After a restart request on a well-formed runtime, the service is a candidate for a start as soon
-- as it has no process, at any time, with any exit code and whatever its restart policy says.
pub request_restart-starts :
    (clock : Clock) (now : ℕ) (service : Service) (exit_code : ExitCode) (r : ServiceRuntime)
    → IsValid r
    → is_consider
        (check_runtime now service (ended clock service.spec.restart exit_code (request_restart r)))
      ≡ true
unfolding ended request_restart check_runtime
request_restart-starts clock now service exit_code r v = ground arith

-- A disabled service is no candidate for a start, while its process is being stopped and after,
-- whatever its restart policy says.
pub disable-stays :
    (clock : Clock) (now : ℕ) (service : Service) (exit_code : ExitCode) (r : ServiceRuntime)
    → (check_runtime now service (disable r) ≡ skip)
      × (check_runtime now service (ended clock service.spec.restart exit_code (disable r)) ≡ skip)
unfolding ended disable check_runtime
disable-stays clock now service exit_code r = ground arith

-- The delay that the restart tracker has armed, from the instant.
abbrev pub deadline_of : ServiceRuntime → ℕ
deadline_of r = map_or r.restart.backoff_until 0 (λ until. until)

-- When the process of a well-formed enabled service ends, nothing was requested and the tracker
-- follows the restart policy, the service is a candidate for a start exactly if the policy
-- restarts it after this exit code and the deadline of the backoff that the exit armed has come;
-- when the policy restarts it, that deadline is later than the exit.
pub finish_current_run-restarts :
    (clock : Clock) (now : ℕ) (service : Service) (exit_code : ExitCode) (r : ServiceRuntime)
    → IsValid r
    → Follows service.spec.restart r.restart
    → is_some r.running ≡ true
    → is_disabled_desire r.desired ≡ false
    → r.start_requested ≡ false
    → let over = finish_current_run clock service.spec.restart exit_code r in
      let restarts = will_auto_restart service.spec.restart exit_code r in
      (check_runtime now service over ≡ (
        if restarts && not (ltb now (deadline_of over)) then consider (some exit_code) else skip))
      × (restarts ≡ true → clock.now < deadline_of over)
unfolding finish_current_run check_runtime on_failure_max_of
finish_current_run-restarts clock now service exit_code r v f live on quiet =
    (ground arith, ground arith)
