-- ===== src/Scheduler/Examples.antt =====
-- A service that is disabled before its first start, and a look at the leases.
use micromux.Prelude.{[], ◌∷◌, some, true}
use micromux.Runtime.Examples.{service_named, clock_at}
use micromux.Schedule.Valid.{AreValid}
use micromux.Service.{ServiceMap}
use micromux.Commands.{DynamicServicesPolicy, apply_disable}
use micromux.Timers.{expire_due}
use micromux.Scheduler.{Loop, disabled, expired, Reach, at_start, next, new_loop}
use micromux.Scheduler.Reachable.{Reach-AreValid}

abbrev policy : DynamicServicesPolicy
policy = record {
  enabled = true;
  allowed_working_roots = [];
  max_services = 4;
  max_lifetime = some 1_000;
}

abbrev services : ServiceMap
services = ("db", service_named "db") ∷ []

abbrev first : Loop
first = new_loop services

abbrev second : Loop
second = record first { session = (apply_disable (clock_at 3) services "db" first.session).0 }

abbrev third : Loop
third = record second { session = (expire_due (clock_at 4) second.services second.session).0 }

reached : Reach policy 9_000 services third
unfolding new_loop
reached = next {l = second} (next at_start (disabled (clock_at 3) "db")) (expired (clock_at 4))

Reach-AreValid_example : AreValid third.session.runtimes
Reach-AreValid_example = Reach-AreValid policy 9_000 services third reached
