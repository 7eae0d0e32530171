-- ===== src/Events/Handled.antt =====
-- What handling an event does to the runtimes, with the writer's calls left out.
use micromux.Prelude.{
  ℕ, ◌≡◌, refl, ◌∙◌, true, Option, some, arith, Bool-cases, Option-cases, inl, inr, map_or, lookup,
  insert, none, false, ◌⊎◌,
}
use micromux.Model.{ServiceId, ExitCode, Health, ServiceEventKind}
use micromux.Service.{Service, ServiceMap}
use micromux.Runtime.{Clock, ServiceRuntime}
use micromux.Runtime.Drops.{record_drop}
use micromux.Runtime.Methods.{mark_health, mark_killed}
use micromux.Runtime.Finish.{finish_current_run, finish_log_reader}
use micromux.Session.{Runtimes, Session, put, sync, call}
use micromux.Events.{
  ProcessEvent, killed, exited, log_reader_finished, healthy, unhealthy, input_dropped,
  service_id_of, is_taken, update, handle_health_event, handle_exit_event, record_input_drop,
  dispatch, handle_event,
}
use micromux.Events.Written.{
  sync-runtimes, append_service_event-runtimes, announce_backoff-runtimes,
}

-- The runtime after an event, by the methods of the runtime.
abbrev pub after_event : Clock → Option Service → ProcessEvent → ServiceRuntime → ServiceRuntime
after_event clock service (killed id run_id) r = mark_killed r
after_event clock service (exited id run_id exit_code) r =
    map_or service r (λ known. finish_current_run clock known.spec.restart exit_code r)
after_event clock service (log_reader_finished id run_id) r = finish_log_reader run_id r
after_event clock service (healthy id run_id) r = (mark_health Health.healthy r).0
after_event clock service (unhealthy id run_id) r = (mark_health Health.unhealthy r).0
after_event clock service (input_dropped id run_id) r = record r {
  input_drops = (record_drop clock.now r.input_drops).0;
}

-- The exit of a process whose service is not defined.
abbrev pub IsUndefined : ServiceMap → ProcessEvent → Type 0
IsUndefined services (exited id run_id exit_code) = lookup id services ≡ none
IsUndefined services _ = ⊥

-- There is no runtime of the event's service, or it does not take the event.
abbrev pub IsIgnored : ServiceMap → ProcessEvent → Runtimes → Type 0
IsIgnored services event m =
    (lookup (service_id_of event) m ≡ none)
    ⊎ (((r : ServiceRuntime) × (lookup (service_id_of event) m ≡ some r)
          × (is_taken event r ≡ false))
        ⊎ IsUndefined services event)

-- An event leaves the runtimes, or changes that of its service.
pub data Handled (clock : Clock) (services : ServiceMap) (event : ProcessEvent) (m : Runtimes)
    (m' : Runtimes) : Type 0 where
  untouched : IsIgnored services event m → m' ≡ m → Handled clock services event m m'
  changed :
      (r : ServiceRuntime)
      → lookup (service_id_of event) m ≡ some r
      → is_taken event r ≡ true
      → ¬ IsUndefined services event
      → m'
        ≡ insert
            (service_id_of event)
            (after_event clock (lookup (service_id_of event) services) event r)
            m
      → Handled clock services event m m'

update-runtimes :
    (id : ServiceId) (change : ServiceRuntime → ServiceRuntime) (s : Session) (r : ServiceRuntime)
    → lookup id s.runtimes ≡ some r
    → (update id change s).runtimes ≡ insert id (change r) s.runtimes
unfolding update put
update-runtimes id change s r e = rw e refl

health-runtimes :
    (clock : Clock) (services : ServiceMap) (id : ServiceId) (h : Health) (kind : ServiceEventKind)
    (s : Session) (r : ServiceRuntime)
    → lookup id s.runtimes ≡ some r
    → (handle_health_event clock services id h kind s).0.runtimes
      ≡ insert id (mark_health h r).0 s.runtimes
unfolding handle_health_event
health-runtimes clock services id h kind s r e = ground (
  arith,
  append_service_event-runtimes clock id kind
      (sync clock services id (update id (λ r. (mark_health h r).0) s)),
  sync-runtimes clock services id (update id (λ r. (mark_health h r).0) s),
  update-runtimes id (λ r. (mark_health h r).0) s r e,
)

exit-runtimes :
    (clock : Clock) (services : ServiceMap) (id : ServiceId) (run_id : ℕ) (exit_code : ExitCode)
    (s : Session)
    → (handle_exit_event clock services id run_id exit_code s).0.runtimes
      ≡ (map_or (lookup id services) s (λ service.
          update id (finish_current_run clock service.spec.restart exit_code) s)).runtimes
unfolding handle_exit_event call
exit-runtimes clock services id run_id exit_code s =
    announce_backoff-runtimes clock id run_id _ _ ∙ sync-runtimes clock services id _

drop-runtimes :
    (clock : Clock) (id : ServiceId) (s : Session) (r : ServiceRuntime)
    → lookup id s.runtimes ≡ some r
    → (record_input_drop clock id s).runtimes
      ≡ insert id (record r { input_drops = (record_drop clock.now r.input_drops).0 }) s.runtimes
unfolding record_input_drop put
drop-runtimes clock id s r e =
    rw (e, record_input_drop)
      (elim (Bool-cases (record_drop clock.now r.input_drops).1) [
        | inl told ↦ rw told refl
        | inr quiet ↦ rw quiet refl
      ])

-- An event that is taken changes the runtime as `after_event` says.
dispatch-Handled :
    (clock : Clock) (services : ServiceMap) (event : ProcessEvent) (s : Session)
    (r : ServiceRuntime)
    → lookup (service_id_of event) s.runtimes ≡ some r
    → is_taken event r ≡ true
    → Handled clock services event s.runtimes (dispatch clock services event s).0.runtimes
dispatch-Handled clock services (killed id run_id) s r e t =
    changed r e t (λ h. h)
      (sync-runtimes clock services id _ ∙ update-runtimes id mark_killed s r e)
dispatch-Handled clock services (exited id run_id exit_code) s r e t =
    elim (Option-cases (lookup id services)) [
      | inl unknown ↦
          untouched (inr (inr unknown))
            (exit-runtimes clock services id run_id exit_code s ∙ rw unknown refl)
      | inr (service, known) ↦
          changed r e t (λ absent. cc)
            (exit-runtimes clock services id run_id exit_code s
              ∙ rw known (
                  update-runtimes id (finish_current_run clock service.spec.restart exit_code) s r
                    e))
    ]
dispatch-Handled clock services (log_reader_finished id run_id) s r e t =
    changed r e t (λ h. h) (update-runtimes id (finish_log_reader run_id) s r e)
dispatch-Handled clock services (healthy id run_id) s r e t =
    changed r e t (λ h. h) (health-runtimes clock services id Health.healthy _ s r e)
dispatch-Handled clock services (unhealthy id run_id) s r e t =
    changed r e t (λ h. h) (health-runtimes clock services id Health.unhealthy _ s r e)
dispatch-Handled clock services (input_dropped id run_id) s r e t =
    changed r e t (λ h. h) (drop-runtimes clock id s r e)

-- Handling an event leaves the runtimes where it is to be ignored, and otherwise changes that of its
-- service as the methods of the runtime say.
pub handle_event-Handled :
    (clock : Clock) (services : ServiceMap) (event : ProcessEvent) (s : Session)
    → Handled clock services event s.runtimes (handle_event clock services event s).0.runtimes
unfolding handle_event
handle_event-Handled clock services event s =
    elim (Option-cases (lookup (service_id_of event) s.runtimes)) [
      | inl none_held ↦ rw (none_held, handle_event) (untouched (inl none_held) refl)
      | inr (r, e) ↦ elim (Bool-cases (is_taken event r)) [
        | inl taken ↦
            rw (e, handle_event, taken) (dispatch-Handled clock services event s r e taken)
        | inr stale ↦ rw (e, handle_event, stale) (untouched (inr (inl (r, e, stale))) refl)
      ]
    ]
