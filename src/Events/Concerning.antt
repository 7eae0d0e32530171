-- ===== src/Events/Concerning.antt =====
-- crates/micromux/src/scheduler.rs: which events `handle_event` takes, and what the marks of a
-- runtime do.
use micromux.Prelude.{
  ℕ, ◌≡◌, refl, ap, ◌∙◌, List, [], ◌∷◌, Bool, true, false, none, some, arith, ◌==◌, ◌||◌,
  if◌then◌else◌, exists, Bool-cases, Option-cases, inl, inr,
}
use micromux.Model.{Health}
use micromux.Runtime.{DesiredState, State, DrainingLogReader, ServiceRuntime}
use micromux.Runtime.Drops.{InputDropThrottle, record_drop}
use micromux.Runtime.Methods.{
  mark_health, mark_killed, current_run_id, is_disabled_desire, has_health, takes_health, health_eq,
}
use micromux.Runtime.Finish.{remove_reader}
use micromux.Events.{
  ProcessEvent, killed, exited, log_reader_finished, healthy, unhealthy, input_dropped, is_taken,
  is_run, is_draining_run,
}
use micromux.Events.Effect.{
  IsCurrentRun, HasReader, Concerns, state_killed, state_checked, IsWithoutReader, IsDropCounted,
}

is_run-IsCurrentRun :
    (run_id : ℕ) (r : ServiceRuntime)
    → is_run (current_run_id r) run_id ≡ true
    → IsCurrentRun run_id r
is_run-IsCurrentRun run_id r h = elim (Option-cases r.running) [
  | inl stopped ↦ absurd (ground (arith, h, stopped))
  | inr (live, e) ↦ (live, e, ground (arith, h, e))
]

IsCurrentRun-is_run :
    (run_id : ℕ) (r : ServiceRuntime)
    → IsCurrentRun run_id r
    → is_run (current_run_id r) run_id ≡ true
IsCurrentRun-is_run run_id r (live, e, same) = rw e (ground (arith, same))

exists-HasReader :
    (run_id : ℕ) (readers : List DrainingLogReader)
    → exists (is_draining_run run_id) readers ≡ true
    → HasReader run_id readers
exists-HasReader run_id [] h = cc
exists-HasReader run_id (draining ∷ rest) h = elim (Bool-cases (draining.run_id == run_id)) [
  | inl same ↦ inl (ground (arith, same))
  | inr other ↦ inr (exists-HasReader run_id rest (ground (arith, h, other)))
]

HasReader-exists :
    (run_id : ℕ) (readers : List DrainingLogReader)
    → HasReader run_id readers
    → exists (is_draining_run run_id) readers ≡ true
HasReader-exists run_id [] h = absurd h
HasReader-exists run_id (draining ∷ rest) (inl same) = ground (arith, same)
HasReader-exists run_id (draining ∷ rest) (inr later) =
    ground (arith, HasReader-exists run_id rest later)

or_false : (b : Bool) → (b || false) ≡ true → b ≡ true
or_false b h = ground arith

pub is_taken-Concerns :
    (event : ProcessEvent) (r : ServiceRuntime) → is_taken event r ≡ true → Concerns event r
unfolding is_taken
is_taken-Concerns (killed id run_id) r h = is_run-IsCurrentRun run_id r (or_false _ h)
is_taken-Concerns (exited id run_id exit_code) r h = is_run-IsCurrentRun run_id r (or_false _ h)
is_taken-Concerns (healthy id run_id) r h = is_run-IsCurrentRun run_id r (or_false _ h)
is_taken-Concerns (unhealthy id run_id) r h = is_run-IsCurrentRun run_id r (or_false _ h)
is_taken-Concerns (log_reader_finished id run_id) r h =
    elim (Bool-cases (is_run (current_run_id r) run_id)) [
      | inl own ↦ inl (is_run-IsCurrentRun run_id r own)
      | inr other ↦ inr (exists-HasReader run_id r.draining_log_readers (ground (arith, h, other)))
    ]
is_taken-Concerns (input_dropped id run_id) r h =
    elim (Bool-cases (is_run (current_run_id r) run_id)) [
      | inl own ↦ inl (is_run-IsCurrentRun run_id r own)
      | inr other ↦ elim (Option-cases r.running) [
        | inr (live, e) ↦ absurd (ground (arith, h, other, e))
        | inl stopped ↦ elim (Option-cases r.last_run_id) [
          | inl fresh ↦ absurd (ground (arith, h, other, stopped, fresh))
          | inr (last, e) ↦
              let same : last ≡ run_id = ground (arith, h, other, stopped, e) in
              inr (stopped, e ∙ ap some same)
        ]
      ]
    ]

pub Concerns-is_taken :
    (event : ProcessEvent) (r : ServiceRuntime) → Concerns event r → is_taken event r ≡ true
unfolding is_taken
Concerns-is_taken (killed id run_id) r h = rw (IsCurrentRun-is_run run_id r h)
Concerns-is_taken (exited id run_id exit_code) r h = rw (IsCurrentRun-is_run run_id r h)
Concerns-is_taken (healthy id run_id) r h = rw (IsCurrentRun-is_run run_id r h)
Concerns-is_taken (unhealthy id run_id) r h = rw (IsCurrentRun-is_run run_id r h)
Concerns-is_taken (log_reader_finished id run_id) r (inl own) =
    rw (IsCurrentRun-is_run run_id r own)
Concerns-is_taken (log_reader_finished id run_id) r (inr past_run) =
    ground (arith, HasReader-exists run_id r.draining_log_readers past_run)
Concerns-is_taken (input_dropped id run_id) r (inl own) = rw (IsCurrentRun-is_run run_id r own)
Concerns-is_taken (input_dropped id run_id) r (inr (stopped, last)) =
    rw (stopped, last) (ground arith)

state_killed-disabled :
    (desired : DesiredState) (state : State)
    → is_disabled_desire desired ≡ true
    → state ≡ state_killed desired state
state_killed-disabled DesiredState.enabled state h = cc
state_killed-disabled DesiredState.disabled state h = refl

state_killed-enabled :
    (desired : DesiredState) (state : State)
    → is_disabled_desire desired ≡ false
    → State.killed ≡ state_killed desired state
state_killed-enabled DesiredState.enabled state h = refl
state_killed-enabled DesiredState.disabled state h = cc

pub mark_killed_lem :
    (r : ServiceRuntime) → mark_killed r ≡ record r { state = state_killed r.desired r.state }
unfolding mark_killed
mark_killed_lem r =
    let with_state : State → ServiceRuntime = λ state. record r { state = state } in
    elim (Bool-cases (is_disabled_desire r.desired)) [
      | inl off ↦ rw off (ap with_state (state_killed-disabled r.desired r.state off))
      | inr on ↦ rw on (ap with_state (state_killed-enabled r.desired r.state on))
    ]

health_eq_lem : (a b : Health) → health_eq a b ≡ true → a ≡ b
health_eq_lem Health.healthy Health.healthy h = refl
health_eq_lem Health.unhealthy Health.unhealthy h = refl
health_eq_lem Health.unknown Health.unknown h = refl
health_eq_lem Health.healthy Health.unhealthy h = cc
health_eq_lem Health.healthy Health.unknown h = cc
health_eq_lem Health.unhealthy Health.healthy h = cc
health_eq_lem Health.unhealthy Health.unknown h = cc
health_eq_lem Health.unknown Health.healthy h = cc
health_eq_lem Health.unknown Health.unhealthy h = cc

has_health_lem :
    (h : Health) (state : State) → has_health state h ≡ true → state ≡ state_checked h state
has_health_lem h (State.running (some before)) e =
    ap (λ k. State.running (some k)) (health_eq_lem before h e)
has_health_lem h (State.running none) e = cc
has_health_lem h State.pending e = cc
has_health_lem h State.starting e = cc
has_health_lem h State.disabled e = cc
has_health_lem h (State.exited exit_code) e = cc
has_health_lem h State.killed e = cc

takes_health_lem :
    (h : Health) (state : State)
    → (if takes_health state then State.running (some h) else state) ≡ state_checked h state
takes_health_lem h (State.running before) = refl
takes_health_lem h State.pending = refl
takes_health_lem h State.starting = refl
takes_health_lem h State.disabled = refl
takes_health_lem h (State.exited exit_code) = refl
takes_health_lem h State.killed = refl

pub mark_health_lem :
    (h : Health) (r : ServiceRuntime)
    → (mark_health h r).0 ≡ record r { state = state_checked h r.state }
unfolding mark_health
mark_health_lem h r =
    let with_state : State → ServiceRuntime = λ state. record r { state = state } in
    elim (Bool-cases (has_health r.state h)) [
      | inl same ↦ rw same (ap with_state (has_health_lem h r.state same))
      | inr other ↦
          let checked = takes_health_lem h r.state in
          elim (Bool-cases (takes_health r.state)) [
            | inl taken ↦ rw (other, taken) (ap with_state (rw taken at checked))
            | inr refused ↦ rw (other, refused) (ap with_state (rw refused at checked))
          ]
    ]

pub record_drop-IsDropCounted :
    (now : ℕ) (t : InputDropThrottle) → IsDropCounted now t (record_drop now t).0
unfolding record_drop
record_drop-IsDropCounted now t = elim (Option-cases t.report_at) [
  | inl quiet ↦ rw quiet (inl (refl, refl))
  | inr (at, e) ↦ rw e (inr (at, refl, refl))
]

pub remove_reader-IsWithoutReader :
    (run_id : ℕ) (readers : List DrainingLogReader)
    → IsWithoutReader run_id readers (remove_reader run_id readers)
unfolding remove_reader
remove_reader-IsWithoutReader run_id [] = inl ((λ h. h), refl)
remove_reader-IsWithoutReader run_id (draining ∷ rest) =
    elim (Bool-cases (draining.run_id == run_id)) [
      | inl same ↦ rw same (inr ([], draining, rest, refl, ground (arith, same), (λ h. h), refl))
      | inr other ↦
          let differs : ¬ (draining.run_id ≡ run_id) = ground (arith, other) in
          rw other (elim (remove_reader-IsWithoutReader run_id rest) [
            | inl (absent, e) ↦ inl (
              (λ h. elim h [ inl same ↦ differs same | inr later ↦ absent later ]),
              ap (◌∷◌ draining) e,
            )
            | inr (before, found, after, split, same, absent, e) ↦ inr (
              draining ∷ before,
              found,
              after,
              ap (◌∷◌ draining) split,
              same,
              (λ h. elim h [ inl own ↦ differs own | inr later ↦ absent later ]),
              ap (◌∷◌ draining) e,
            )
          ])
    ]
