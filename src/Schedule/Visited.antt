-- ===== src/Schedule/Visited.antt =====
-- How the code of one visit leads to the cases of `Visit`.
use micromux.Prelude.{
  ℕ, ◌≡◌, refl, sym, ap, ◌∙◌, List, [], ◌∷◌, Bool, true, false, Option, none, some, arith,
  Bool-cases, Option-cases, ◌⊎◌, inl, inr, lookup, insert, lookup-insert_self, insert-insert,
}
use micromux.Model.{ServiceId, ExitCode, negsuc, begin_run}
use micromux.Service.{Service, DependencySpec}
use micromux.Runtime.{Clock, ServiceRuntime}
use micromux.Runtime.Methods.{mark_started}
use micromux.Runtime.Finish.{finish_failed_start}
use micromux.Session.{Runtimes, Session, call, put, sync_model}
use micromux.Schedule.{
  StartCheck, skip, consider, blocking_dependencies, should_consider_start, check_runtime,
}
use micromux.Schedule.Start.{
  Spawn, StartedPty, prepare_start, clear_dependency_block, start_service_if_ready,
  finish_service_start, start_succeeded, start_failed, announce_ready, announce_backoff, clear_if,
  is_blocked, unblocked,
}
use micromux.Schedule.Loop.{visit}
use micromux.Schedule.Visit.{Visit, numbered, new_run, live_run}

announce_backoff-runtimes :
    (clock : Clock) (id : ServiceId) (run_id : ℕ) (delay : Option ℕ) (s : Session)
    → (announce_backoff clock id run_id delay s).runtimes ≡ s.runtimes
unfolding call
announce_backoff-runtimes clock id run_id none s = refl
announce_backoff-runtimes clock id run_id (some delay) s = refl

announce_ready-runtimes :
    (clock : Clock) (id : ServiceId) (r : ServiceRuntime) (s : Session)
    → (announce_ready clock id r s).runtimes ≡ s.runtimes
unfolding call
announce_ready-runtimes clock id r s = ground arith

clear_if-runtimes :
    (wanted : Bool) (id : ServiceId) (s : Session) → (clear_if wanted id s).runtimes ≡ s.runtimes
unfolding call
clear_if-runtimes true id s = refl
clear_if-runtimes false id s = refl

module _ (clock : Clock) (id : ServiceId) (service : Service) where
  start_succeeded-runtimes :
      (run_id : ℕ) (pty : StartedPty) (r : ServiceRuntime) (s : Session)
      → (start_succeeded clock id service run_id pty r s).runtimes
        ≡ insert id (mark_started clock (live_run clock run_id pty) r) s.runtimes
  unfolding start_succeeded
  start_succeeded-runtimes run_id pty r s = refl

  start_failed-runtimes :
      (run_id : ℕ) (r : ServiceRuntime) (s : Session)
      → (start_failed clock id service run_id r s).runtimes
        ≡ insert id (finish_failed_start clock service.spec.restart run_id (negsuc 0) r) s.runtimes
  unfolding start_failed
  start_failed-runtimes run_id r s = announce_backoff-runtimes clock id run_id _ _

  clear_dependency_block-runtimes :
      (r : ServiceRuntime) (s : Session)
      → lookup id s.runtimes ≡ some r
      → ((clear_dependency_block clock id service s).runtimes ≡ s.runtimes)
        ⊎ ((clear_dependency_block clock id service s).runtimes
            ≡ insert id (unblocked r) s.runtimes)
  unfolding clear_dependency_block
  clear_dependency_block-runtimes r s e =
      rw (e, clear_dependency_block)
        (elim (Bool-cases (is_blocked r)) [
          | inl yet ↦ rw yet (inr refl)
          | inr free ↦ rw free (inl refl)
        ])

  pub check-eq :
      (r : ServiceRuntime) (m : Runtimes)
      → lookup id m ≡ some r
      → should_consider_start clock.now m id service ≡ check_runtime clock.now service r
  unfolding should_consider_start
  check-eq r m e = rw (e, should_consider_start)

module _ (spawn : Spawn) (clock : Clock) (id : ServiceId) (service : Service) where
  -- The session on which the spawn is tried.
  prepared : Option ExitCode → ServiceRuntime → Session → Session
  prepared exited_code r s = clear_if r.clear_logs_on_start id (
      call (begin_run id (new_run service exited_code r)) (
        put id (numbered service exited_code r) (
          sync_model clock service (prepare_start service exited_code r)
            (announce_ready clock id r s))))

  prepared-runtimes :
      (exited_code : Option ExitCode) (r : ServiceRuntime) (s : Session)
      → (prepared exited_code r s).runtimes ≡ insert id (numbered service exited_code r) s.runtimes
  unfolding prepared put call sync_model
  prepared-runtimes exited_code r s =
      rw (clear_if-runtimes r.clear_logs_on_start id) (rw (announce_ready-runtimes clock id r s))

  start_service-eq :
      (exited_code : Option ExitCode) (r : ServiceRuntime) (s : Session)
      → blocking_dependencies s.runtimes service ≡ []
      → lookup id s.runtimes ≡ some r
      → start_service_if_ready spawn clock id service exited_code s
        ≡ finish_service_start clock id service
            (new_run service exited_code r)
            (spawn id (new_run service exited_code r))
            (prepared exited_code r s)
  unfolding start_service_if_ready prepared
  start_service-eq exited_code r s free e = rw (free, start_service_if_ready) (rw e)

  finish-eq :
      (run_id : ℕ) (result : Option StartedPty) (r : ServiceRuntime) (s : Session)
      → lookup id s.runtimes ≡ some r
      → finish_service_start clock id service run_id result s ≡ (elim result [
        | some started ↦ (start_succeeded clock id service run_id started r s, true)
        | none ↦ (start_failed clock id service run_id r s, false)
      ])
  unfolding finish_service_start
  finish-eq run_id result r s e = rw (e, finish_service_start)

  prepared-lookup :
      (exited_code : Option ExitCode) (r : ServiceRuntime) (s : Session)
      → lookup id (prepared exited_code r s).runtimes ≡ some (numbered service exited_code r)
  prepared-lookup exited_code r s =
      rw (prepared-runtimes exited_code r s) (lookup-insert_self id _ s.runtimes)

  start-Visit :
      (exited_code : Option ExitCode) (r : ServiceRuntime) (s : Session)
      → check_runtime clock.now service r ≡ consider exited_code
      → blocking_dependencies s.runtimes service ≡ []
      → lookup id s.runtimes ≡ some r
      → (result : Option StartedPty)
      → let (s', started) =
          finish_service_start clock id service
            (new_run service exited_code r)
            result
            (prepared exited_code r s) in
        Visit spawn clock id service s.runtimes s'.runtimes started
  start-Visit exited_code r s check free e (some pty) =
      let run_id = new_run service exited_code r in
      let before = prepared exited_code r s in
      let next = mark_started clock (live_run clock run_id pty) (numbered service exited_code r) in
      rw
        (finish-eq run_id (some pty) (numbered service exited_code r) before
          (prepared-lookup exited_code r s))
        (Visit.begun r exited_code pty check free e refl (
          start_succeeded-runtimes clock id service run_id pty (numbered service exited_code r)
            before
          ∙ ap (insert id next) (prepared-runtimes exited_code r s)
          ∙ insert-insert id next (numbered service exited_code r) s.runtimes))
  start-Visit exited_code r s check free e none =
      let run_id = new_run service exited_code r in
      let before = prepared exited_code r s in
      let next =
        finish_failed_start clock service.spec.restart run_id (negsuc 0)
          (numbered service exited_code r) in
      rw
        (finish-eq run_id none (numbered service exited_code r) before
          (prepared-lookup exited_code r s))
        (Visit.failed r exited_code check free e refl (
          start_failed-runtimes clock id service run_id (numbered service exited_code r) before
          ∙ ap (insert id next) (prepared-runtimes exited_code r s)
          ∙ insert-insert id next (numbered service exited_code r) s.runtimes))

  start_held :
      (exited_code : Option ExitCode) (s : Session) (dep : DependencySpec)
      (deps : List DependencySpec)
      → blocking_dependencies s.runtimes service ≡ dep ∷ deps
      → start_service_if_ready spawn clock id service exited_code s ≡ (s, false)
  unfolding start_service_if_ready
  start_held exited_code s dep deps e = rw (e, start_service_if_ready)

  visit_absent :
      (s : Session) → lookup id s.runtimes ≡ none → (visit spawn clock id service s) ≡ (s, false)
  unfolding visit should_consider_start clear_dependency_block
  visit_absent s e = rw (e, visit, should_consider_start) (rw (e, clear_dependency_block))

  visit_skip :
      (s : Session)
      → should_consider_start clock.now s.runtimes id service ≡ skip
      → visit spawn clock id service s ≡ (clear_dependency_block clock id service s, false)
  unfolding visit
  visit_skip s e = rw (e, visit)

  visit_consider :
      (exited_code : Option ExitCode) (s : Session)
      → should_consider_start clock.now s.runtimes id service ≡ consider exited_code
      → visit spawn clock id service s ≡ start_service_if_ready spawn clock id service exited_code s
  unfolding visit
  visit_consider exited_code s e = rw (e, visit)

  -- Every visit is one of the six.
  pub visit-Visit :
      (s : Session)
      → let (s', started) = visit spawn clock id service s in
        Visit spawn clock id service s.runtimes s'.runtimes started
  visit-Visit s = elim (Option-cases (lookup id s.runtimes)) [
    | inl e ↦ rw (visit_absent s e) (Visit.absent e refl refl)
    | inr (r, e) ↦ at_check r e (should_consider_start clock.now s.runtimes id service) refl
  ]
    where
      at_deps :
          (r : ServiceRuntime) (exited_code : Option ExitCode)
          → lookup id s.runtimes ≡ some r
          → should_consider_start clock.now s.runtimes id service ≡ consider exited_code
          → (deps : List DependencySpec) → blocking_dependencies s.runtimes service ≡ deps
          → let (s', started) = start_service_if_ready spawn clock id service exited_code s in
            Visit spawn clock id service s.runtimes s'.runtimes started
      at_deps r exited_code e c (dep ∷ deps) d =
          rw (start_held exited_code s dep deps d) (Visit.held (λ h. cc (d, h)) refl refl)
      at_deps r exited_code e c [] d = rw (start_service-eq exited_code r s d e) (
          start-Visit exited_code r s (sym (check-eq clock id service r s.runtimes e) ∙ c) d e
            (spawn id (new_run service exited_code r)))

      at_check :
          (r : ServiceRuntime)
          → lookup id s.runtimes ≡ some r
          → (check : StartCheck) → should_consider_start clock.now s.runtimes id service ≡ check
          → let (s', started) = visit spawn clock id service s in
            Visit spawn clock id service s.runtimes s'.runtimes started
      at_check r e skip c =
          rw (visit_skip s c) (elim (clear_dependency_block-runtimes clock id service r s e) [
            | inl same ↦ Visit.skipped c refl same
            | inr free ↦ Visit.freed r c refl e free
          ])
      at_check r e (consider exited_code) c =
          rw (visit_consider exited_code s c)
            (at_deps r exited_code e c (blocking_dependencies s.runtimes service) refl)
