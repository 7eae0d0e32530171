-- ===== src/Events/Written.antt =====
-- crates/micromux/src/scheduler.rs: the writes to the session model, seen from the runtimes.
use micromux.Prelude.{ℕ, ◌≡◌, refl, Option, none, some, lookup}
use micromux.Model.{ServiceId, ServiceEventKind}
use micromux.Service.{Service, ServiceMap}
use micromux.Runtime.{Clock, ServiceRuntime}
use micromux.Session.{Session, call, sync, sync_both, sync_model, append_service_event}
use micromux.Schedule.Start.{announce_backoff}

sync_both-runtimes :
    (clock : Clock) (service : Option Service) (r : Option ServiceRuntime) (s : Session)
    → (sync_both clock service r s).runtimes ≡ s.runtimes
unfolding sync_model call
sync_both-runtimes clock none r s = refl
sync_both-runtimes clock (some service) none s = refl
sync_both-runtimes clock (some service) (some r) s = refl

pub sync-runtimes :
    (clock : Clock) (services : ServiceMap) (id : ServiceId) (s : Session)
    → (sync clock services id s).runtimes ≡ s.runtimes
unfolding sync
sync-runtimes clock services id s =
    sync_both-runtimes clock (lookup id services) (lookup id s.runtimes) s

pub append_service_event-runtimes :
    (clock : Clock) (id : ServiceId) (kind : ServiceEventKind) (s : Session)
    → (append_service_event clock id kind s).runtimes ≡ s.runtimes
unfolding append_service_event call
append_service_event-runtimes clock id kind s = refl

pub announce_backoff-runtimes :
    (clock : Clock) (id : ServiceId) (run_id : ℕ) (delay : Option ℕ) (s : Session)
    → (announce_backoff clock id run_id delay s).runtimes ≡ s.runtimes
unfolding call
announce_backoff-runtimes clock id run_id none s = refl
announce_backoff-runtimes clock id run_id (some delay) s = refl
