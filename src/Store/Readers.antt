-- ===== src/Store/Readers.antt =====
-- crates/micromux/src/model.rs: what `SessionModelReader` answers, per entry and for the roster.
-- The metadata that the disk worker keeps of a run's file is the argument `metadata`.
use micromux.Prelude.{
  ℕ, zero, suc, min, List, [], ◌∷◌, ◌++◌, map, Bool, true, false, ◌&&◌, ◌||◌, not, Option, none,
  some, ltb, ◌==◌, if◌then◌else◌, map_or, length, drop, keep, exists, is_some, saturating_add,
  saturating_sub, lookup, text_eq,
}
use micromux.Model.{ServiceId, Execution, ServiceSnapshot}
use micromux.LogBuffer.{LogLine, lines, lines_since, first_retained_seq}
use micromux.Store.{RunPath, RunLogEntry, ServiceEntry, HealthAttempt, StoredEvent, event_history}
use micromux.Store.Runs.{is_of, find_run}
use micromux.Store.Sink.{Inner}

pub record LogRunSummary : Type 0 where
  pub run_generation : ℕ
  pub current : Bool
  pub path : Option RunPath
  pub line_count : ℕ
  pub first_seq : Option ℕ
  pub last_seq : Option ℕ

pub record LogRun : Type 0 where
  pub run_generation : ℕ
  pub current : Bool
  pub lines : List LogLine

-- crates/micromux/src/model/disk.rs
pub record DiskRunMetadata : Type 0 where
  pub segment_epoch : ℕ
  pub readable_len : ℕ
  pub line_count : ℕ
  pub first_seq : Option ℕ
  pub last_seq : Option ℕ

unfoldable pub current_snapshot : (now : ℕ) → ServiceEntry → ServiceSnapshot
current_snapshot now e = record (e.snapshot) {
  uptime = map_or e.started_at none (λ started. some (saturating_sub now started));
}

abbrev pub latest_run_generation : ServiceEntry → ℕ
latest_run_generation e = e.snapshot.run_generation

abbrev pub is_running : Execution → Bool
is_running Execution.running = true
is_running _ = false

-- `health.iter().rev().find(…)`
abbrev pub last_attempt_of : ℕ → List HealthAttempt → Option HealthAttempt
last_attempt_of run_generation [] = none
last_attempt_of run_generation (h ∷ rest) = elim (last_attempt_of run_generation rest) [
  | some later ↦ some later
  | none ↦ if h.run_generation == run_generation then some h else none
]

unfoldable pub latest_current_health : ServiceEntry → Option HealthAttempt
latest_current_health e =
    if is_running e.snapshot.execution
    then last_attempt_of e.snapshot.run_generation e.health
    else none

-- `RunLogEntry::summary`
abbrev pub summary :
    (metadata : ℕ → DiskRunMetadata) → (current : Bool) → RunLogEntry → LogRunSummary
summary metadata current run = record {
  run_generation = run.run_generation;
  current = current;
  path = run.path;
  line_count = (metadata run.run_generation).line_count;
  first_seq = (metadata run.run_generation).first_seq;
  last_seq = (metadata run.run_generation).last_seq;
}

abbrev pub empty_summary : ℕ → LogRunSummary
empty_summary latest = record {
  run_generation = latest;
  current = true;
  path = none;
  line_count = 0;
  first_seq = none;
  last_seq = none;
}

unfoldable pub log_runs : (metadata : ℕ → DiskRunMetadata) → ServiceEntry → List LogRunSummary
log_runs metadata e =
    let latest = latest_run_generation e in
    let runs =
      map (λ run. summary metadata (run.run_generation == latest) run)
        (keep (λ run. is_some run.path) e.runs) in
    if not (latest == 0) && not (exists (is_of latest) e.runs)
    then runs ++ empty_summary latest ∷ []
    else runs

unfoldable pub run_log_source : ℕ → ServiceEntry → Option RunPath
unfolding find_run
run_log_source run_generation e = map_or (find_run run_generation e.runs) none (λ run. run.path)

unfoldable pub synthetic_empty_run : ℕ → ServiceEntry → Option LogRun
synthetic_empty_run run_generation e =
    if run_generation == 0
      || (not (run_generation == latest_run_generation e) || exists (is_of run_generation) e.runs)
    then none
    else some (record { run_generation = run_generation; current = true; lines = [] })

abbrev pub path_eq : RunPath → RunPath → Bool
path_eq p q =
    text_eq p.spool_dir q.spool_dir
    && (text_eq p.service_id q.service_id && p.run_generation == q.run_generation)

abbrev pub is_path : RunPath → Option RunPath → Bool
is_path path none = false
is_path path (some known) = path_eq known path

unfoldable pub is_current_run_path : ℕ → RunPath → ServiceEntry → Option Bool
unfolding find_run
is_current_run_path run_generation path e = map_or (find_run run_generation e.runs) none (λ run.
    if is_path path run.path then some (run.run_generation == latest_run_generation e) else none)

abbrev pub take {ℓ} : {A : Type ℓ} → ℕ → List A → List A
take zero xs = []
take (suc n) [] = []
take (suc n) (x ∷ xs) = x ∷ take n xs

abbrev pub is_after : Option ℕ → StoredEvent → Bool
is_after none stored = true
is_after (some after) stored = ltb after stored.event.seq

-- `events.front().is_some_and(|first| first.seq > after.unwrap_or(0).saturating_add(1))`
abbrev pub retention_truncated : Option ℕ → List StoredEvent → Bool
retention_truncated after [] = false
retention_truncated after (first ∷ rest) =
    ltb (saturating_add (map_or after 0 (λ a. a)) 1) first.event.seq

-- The events of an entry, for a reader with a cursor or for the newest ones.
unfoldable pub entry_events : (after tail : Option ℕ) → List StoredEvent → List StoredEvent × Bool
entry_events after tail stored =
    let limit = min (map_or tail event_history (λ n. n)) event_history in
    let matching = keep (is_after after) stored in
    let truncated = retention_truncated after stored || ltb limit (length matching) in
    if is_some after
    then (take limit matching, truncated)
    else (drop (saturating_sub (length matching) limit) matching, truncated)

-- `SessionModelReader`
unfoldable pub services : (now : ℕ) → Inner → List ServiceSnapshot
unfolding current_snapshot
services now m = map (λ e. current_snapshot now e.1) m.services

unfoldable pub service : (now : ℕ) → ServiceId → Inner → Option ServiceSnapshot
unfolding current_snapshot
service now id m = map_or (lookup id m.services) none (λ e. some (current_snapshot now e))

unfoldable pub logs : ServiceId → (tail : Option ℕ) → Inner → List LogLine
unfolding lines
logs id tail m = map_or (lookup id m.services) [] (λ e. lines e.visible tail)

unfoldable pub logs_since : ServiceId → (after : ℕ) → Inner → Option ℕ × List LogLine
unfolding lines_since
logs_since id after m = map_or (lookup id m.services) (none, []) (λ e. lines_since e.visible after)

unfoldable pub first_retained_log_seq : ServiceId → Inner → Option ℕ
unfolding first_retained_seq
first_retained_log_seq id m = map_or (lookup id m.services) none (λ e. first_retained_seq e.visible)

unfoldable pub healthchecks : ServiceId → Inner → List HealthAttempt
healthchecks id m = map_or (lookup id m.services) [] (λ e. e.health)

unfoldable pub latest_health : ServiceId → Inner → Option HealthAttempt
unfolding latest_current_health
latest_health id m = map_or (lookup id m.services) none latest_current_health

unfoldable pub events : ServiceId → (after tail : Option ℕ) → Inner → List StoredEvent × Bool
unfolding entry_events
events id after tail m =
    map_or (lookup id m.services) ([], false) (λ e. entry_events after tail e.events)
