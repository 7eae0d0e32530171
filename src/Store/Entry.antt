-- ===== src/Store/Entry.antt =====
-- crates/micromux/src/model.rs: the operations of `ServiceEntry` on its logs and runs.
use micromux.Prelude.{
  ℕ, max, List, [], ◌∷◌, ◌++◌, Bool, true, false, ◌&&◌, ◌||◌, not, Option, none, some, ◌==◌,
  if◌then◌else◌, exists, saturating_add,
}
use micromux.Text.{Text}
use micromux.LogBuffer
use micromux.LogBuffer.{LogLine, MemoryLogBuffer, replace_last, clear_before_next_seq, back}
use micromux.Store.{
  LogUpdateKind, live_snapshot, DiskLogOp, DiskLogRecord, RunPath, RunLogEntry, DiskCall,
  ServiceEntry, LogRetention, at_least_one,
}
use micromux.Store.Runs.{
  append_metadata, replace_metadata, enqueue_remove, evict_runs, evicted, is_of, set_run,
  ensure_run,
}

unfoldable pub next_ingest_timestamp : (now_ms : ℕ) → ServiceEntry → ServiceEntry × ℕ
next_ingest_timestamp now_ms e =
    let timestamp = max now_ms e.last_ingest_timestamp_unix_ms in
    (record e { last_ingest_timestamp_unix_ms = timestamp }, timestamp)

abbrev pub same_seq : Option ℕ → Option ℕ → Bool
same_seq none none = true
same_seq (some a) (some b) = a == b
same_seq _ _ = false

-- Where a line goes: the run after it, the operation, its number and the next number.
pub record Placed : Type 0 where
  pub run : RunLogEntry
  pub op : DiskLogOp
  pub seq : ℕ
  pub next_seq : ℕ

-- A new number for the line.
abbrev pub place_new : ℕ → RunLogEntry → Placed
place_new next_seq run = record {
  run = append_metadata next_seq run;
  op = DiskLogOp.append;
  seq = next_seq;
  next_seq = saturating_add next_seq 1;
}

-- `run.last_seq.filter(|seq| !current_run || visible_last_seq == Some(*seq))`
abbrev pub replaceable : (current_run : Bool) (visible_last_seq last_seq : Option ℕ) → Option ℕ
replaceable current_run visible_last_seq none = none
replaceable current_run visible_last_seq (some seq) =
    if not current_run || same_seq visible_last_seq (some seq) then some seq else none

abbrev pub place_resolved : Option ℕ → ℕ → RunLogEntry → Placed
place_resolved none next_seq run = place_new next_seq run
place_resolved (some seq) next_seq run = record {
  run = replace_metadata seq run;
  op = DiskLogOp.replace_last;
  seq = seq;
  next_seq = next_seq;
}

-- The `match update`.
unfoldable pub place :
    LogUpdateKind
    → (current_run : Bool) (visible_last_seq : Option ℕ) (next_seq : ℕ) → RunLogEntry
    → Placed
unfolding append_metadata replace_metadata
place LogUpdateKind.append current_run visible_last_seq next_seq run =
    place_new next_seq (record run { live_snapshot_id = none })
place (live_snapshot id) current_run visible_last_seq next_seq run =
    let resolved =
      if same_seq run.live_snapshot_id (some id)
      then replaceable current_run visible_last_seq run.last_seq
      else none in
    let placed = place_resolved resolved next_seq run in
    record placed { run = record (placed.run) { live_snapshot_id = some id } }

abbrev pub last_seq_of : MemoryLogBuffer → Option ℕ
last_seq_of b = elim (back b.entries) [ none ↦ none | some l ↦ some l.seq ]

-- `disk.zip(run.path.clone()).zip(disk_line)`
abbrev pub disk_write_of :
    (disk : Bool)
    → Option RunPath
    → (disk_line : Option Text) → DiskLogOp
    → LogLine
    → Option (RunPath × DiskLogRecord)
disk_write_of true (some path) (some disk_line) op l = some (
  path,
  record {
    seq = l.seq;
    run_generation = l.run_generation;
    timestamp_unix_ms = l.timestamp_unix_ms;
    op = op;
    line = disk_line;
  },
)
disk_write_of _ _ _ op l = none

abbrev pub show : DiskLogOp → LogLine → MemoryLogBuffer → MemoryLogBuffer
show DiskLogOp.append l b = LogBuffer.append b l
show DiskLogOp.replace_last l b = replace_last b l

-- The part of `append_log` behind `ensure_run`.
unfoldable pub append_to :
    (run_generation : ℕ)
    → LogUpdateKind
    → (line : Text) (disk_line : Option Text) (timestamp_unix_ms : ℕ) (visible_last_seq : Option ℕ)
    → RunLogEntry
    → ServiceEntry
    → ServiceEntry × Option (RunPath × DiskLogRecord)
unfolding place set_run LogBuffer.append replace_last
append_to run_generation update line disk_line timestamp_unix_ms visible_last_seq run e =
    let current_run = run_generation == e.latest_begun_run in
    let placed = place update current_run visible_last_seq e.next_log_seq run in
    let l : LogLine = record {
      seq = placed.seq;
      run_generation = run_generation;
      timestamp_unix_ms = timestamp_unix_ms;
      line = line;
    } in
    (
      record e {
        runs = set_run run_generation placed.run e.runs;
        next_log_seq = placed.next_seq;
        visible = if current_run then show placed.op l e.visible else e.visible;
      },
      disk_write_of e.disk placed.run.path disk_line placed.op l,
    )

unfoldable pub append_log :
    (run_generation : ℕ)
    → LogUpdateKind
    → (line : Text) (disk_line : Option Text) (timestamp_unix_ms : ℕ) → ServiceEntry
    → ServiceEntry × Option (RunPath × DiskLogRecord)
unfolding ensure_run append_to
append_log run_generation update line disk_line timestamp_unix_ms e =
    if not (run_generation == e.latest_begun_run) && not (exists (is_of run_generation) e.runs)
    then (e, none)
    else let (ensured, found) = ensure_run run_generation e in
      elim found [
        | none ↦ (ensured, none)
        | some run ↦
            append_to run_generation update line disk_line timestamp_unix_ms (last_seq_of e.visible)
              run ensured
      ]

unfoldable pub append_banner :
    (line : Text) (disk_line : Option Text) (timestamp_unix_ms : ℕ)
    → ServiceEntry
    → ServiceEntry × Option (RunPath × DiskLogRecord)
unfolding append_log
append_banner line disk_line timestamp_unix_ms e =
    append_log e.latest_begun_run LogUpdateKind.append line disk_line timestamp_unix_ms e

abbrev pub no_live : RunLogEntry → RunLogEntry
no_live run = record run { live_snapshot_id = none }

abbrev pub begun_in : (run_generation : ℕ) → ServiceEntry × Option RunLogEntry → ServiceEntry
begun_in run_generation (e, none) = record e { health = [] }
begun_in run_generation (e, some run) = record e {
  runs = set_run run_generation (no_live run) e.runs;
  health = [];
}

-- `ServiceEntry::begin_run`
unfoldable pub begin_entry_run : (run_generation : ℕ) → ServiceEntry → ServiceEntry
unfolding ensure_run set_run
begin_entry_run run_generation e =
    begun_in run_generation
      (ensure_run run_generation (record e { latest_begun_run = run_generation }))

abbrev pub last_without_live : List RunLogEntry → List RunLogEntry
last_without_live [] = []
last_without_live (run ∷ []) = no_live run ∷ []
last_without_live (run ∷ next ∷ runs) = run ∷ last_without_live (next ∷ runs)

unfoldable pub clear_visible_logs : ServiceEntry → ServiceEntry
unfolding clear_before_next_seq
clear_visible_logs e = record e {
  visible = clear_before_next_seq e.visible e.next_log_seq;
  runs = last_without_live e.runs;
}

unfoldable pub reconfigure_log_retention : LogRetention → ServiceEntry → ServiceEntry
unfolding LogBuffer.reconfigure evict_runs
reconfigure_log_retention retention e =
    let log_retention = at_least_one retention in
    evicted (evict_runs log_retention.retained_runs e.disk e.runs) (record e {
      visible = LogBuffer.reconfigure e.visible log_retention.memory;
      log_retention = log_retention;
    })

abbrev pub remove_each : (disk : Bool) → List RunLogEntry → List RunLogEntry × List DiskCall
remove_each disk [] = ([], [])
remove_each disk (run ∷ runs) =
    let (rest, calls) = remove_each disk runs in
    let (removed, call) = enqueue_remove disk run in (removed ∷ rest, call ++ calls)

unfoldable pub remove_retained_run_files : ServiceEntry → ServiceEntry
unfolding enqueue_remove
remove_retained_run_files e = evicted (remove_each e.disk e.runs) e
