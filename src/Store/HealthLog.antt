-- ===== src/Store/HealthLog.antt =====
-- crates/micromux/src/model.rs: the health records that `RunSink` writes.
use micromux.Prelude.{
  ℕ, List, [], ◌∷◌, ◌++◌, Bool, true, false, ◌&&◌, none, some, ◌==◌, if◌then◌else◌, map_or, lookup,
}
use micromux.Text.{Text, truncate_to_first_bytes}
use micromux.Model.{ServiceId}
use micromux.Store.{
  OutputStream, HealthResult, HealthAttempt, ServiceEntry, model_string_max_bytes, health_history,
  health_output_max_lines,
}
use micromux.Store.Sink.{ChangeKind, Inner, publish, store_entry, make_room_for_one}

-- Only the latest run writes health records.
abbrev pub if_latest :
    (run_generation : ℕ) → (ServiceEntry → ServiceEntry) → ServiceEntry → ServiceEntry
if_latest run_generation change e = if e.latest_begun_run == run_generation then change e else e

unfoldable pub start_health :
    (run_generation attempt : ℕ) (command : Text) → ServiceEntry → ServiceEntry
unfolding make_room_for_one truncate_to_first_bytes
start_health run_generation attempt command e =
    if_latest run_generation
      (λ e. record e {
        health =
            make_room_for_one health_history e.health
            ++ (record {
              run_generation = run_generation;
              attempt = attempt;
              command = truncate_to_first_bytes command model_string_max_bytes;
              output = [];
              result = none;
            })
              ∷ [];
      })
      e

abbrev pub is_attempt : (run_generation attempt : ℕ) → HealthAttempt → Bool
is_attempt run_generation attempt h = h.run_generation == run_generation && h.attempt == attempt

-- What is done to the first attempt of the number: `iter_mut().find(…)`.
unfoldable pub change_attempt :
    (run_generation attempt : ℕ)
    → (HealthAttempt → HealthAttempt)
    → List HealthAttempt
    → List HealthAttempt
change_attempt run_generation attempt change [] = []
change_attempt run_generation attempt change (h ∷ rest) =
    if is_attempt run_generation attempt h
    then change h ∷ rest
    else h ∷ change_attempt run_generation attempt change rest

unfoldable pub append_health :
    (run_generation attempt : ℕ) → OutputStream → (line : Text) → ServiceEntry → ServiceEntry
unfolding change_attempt make_room_for_one truncate_to_first_bytes
append_health run_generation attempt stream line e =
    if_latest run_generation
      (λ e. record e {
        health =
            change_attempt run_generation attempt
              (λ h. record h {
                output =
                    make_room_for_one health_output_max_lines h.output
                    ++ (record {
                      stream = stream;
                      line = truncate_to_first_bytes line model_string_max_bytes;
                    })
                      ∷ [];
              })
              e.health;
      })
      e

unfoldable pub finish_health :
    (run_generation attempt : ℕ) → HealthResult → ServiceEntry → ServiceEntry
unfolding change_attempt
finish_health run_generation attempt result e =
    if_latest run_generation
      (λ e. record e {
        health =
            change_attempt run_generation attempt (λ h. record h { result = some result }) e.health;
      })
      e

-- Whether a write of a health record is published.
abbrev has_attempt : (run_generation attempt : ℕ) → List HealthAttempt → Bool
has_attempt run_generation attempt [] = false
has_attempt run_generation attempt (h ∷ rest) =
    if is_attempt run_generation attempt h then true else has_attempt run_generation attempt rest

abbrev with_health :
    ServiceId → (ServiceEntry → Bool) → (ServiceEntry → ServiceEntry) → Inner → Inner
with_health id taken change m =
    map_or (lookup id m.services) m
      (λ e. if taken e then publish id ChangeKind.health (store_entry id (change e) m) else m)

unfoldable pub start_health_attempt :
    ServiceId → (run_generation attempt : ℕ) (command : Text) → Inner → Inner
unfolding start_health publish
start_health_attempt id run_generation attempt command =
    with_health id (λ e. e.latest_begun_run == run_generation)
      (start_health run_generation attempt command)

abbrev writes_attempt : (run_generation attempt : ℕ) → ServiceEntry → Bool
writes_attempt run_generation attempt e =
    e.latest_begun_run == run_generation && has_attempt run_generation attempt e.health

unfoldable pub append_health_line :
    ServiceId → (run_generation attempt : ℕ) → OutputStream → (line : Text) → Inner → Inner
unfolding append_health publish
append_health_line id run_generation attempt stream line =
    with_health id (writes_attempt run_generation attempt)
      (append_health run_generation attempt stream line)

unfoldable pub finish_health_attempt :
    ServiceId → (run_generation attempt : ℕ) → HealthResult → Inner → Inner
unfolding finish_health publish
finish_health_attempt id run_generation attempt result =
    with_health id (writes_attempt run_generation attempt)
      (finish_health run_generation attempt result)
