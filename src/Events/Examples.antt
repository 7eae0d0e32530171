-- ===== src/Events/Examples.antt =====
-- The exit of a process, and events of a run that is over.
use micromux.Prelude.{◌≡◌, refl, [], ◌∷◌, some, lookup}
use micromux.Model.{pos}
use micromux.Service.{ServiceMap}
use micromux.Runtime.{ServiceRuntime}
use micromux.Runtime.Examples.{service_named, clock_at, live_runtime, live_runtime-IsValid}
use micromux.Session.{Session}
use micromux.Schedule.Valid.{AreValid}
use micromux.Events.{exited, handle_event}
use micromux.Events.Effect.{Effected}
use micromux.Events.Effected.{handle_event-Effected}
use micromux.Events.Valid.{handle_event-AreValid}
use micromux.Events.Stale.{core, handle_event-stale}

abbrev pub live_session : Session
live_session = record { runtimes = ("web", live_runtime) ∷ []; calls = [] }

abbrev pub one_service : ServiceMap
one_service = ("web", service_named "web") ∷ []

handle_event-Effected_example :
    Effected
      (clock_at 60)
      one_service
      (exited "web" 1 (pos 3))
      live_session.runtimes
      (handle_event (clock_at 60) one_service (exited "web" 1 (pos 3)) live_session).0.runtimes
handle_event-Effected_example =
    handle_event-Effected (clock_at 60) one_service (exited "web" 1 (pos 3)) live_session

handle_event-AreValid_example :
    AreValid
      (handle_event (clock_at 60) one_service (exited "web" 1 (pos 3)) live_session).0.runtimes
handle_event-AreValid_example =
    handle_event-AreValid (clock_at 60) one_service (exited "web" 1 (pos 3)) live_session
      (live_runtime-IsValid, tt)

handle_event-stale_example :
    let s' = (handle_event (clock_at 60) one_service (exited "web" 9 (pos 3)) live_session).0 in
    (r' : ServiceRuntime) × (lookup "web" s'.runtimes ≡ some r') × (core r' ≡ core live_runtime)
unfolding lookup
handle_event-stale_example =
    handle_event-stale (clock_at 60) one_service (exited "web" 9 (pos 3)) live_session live_runtime
      refl refl
