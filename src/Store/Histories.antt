-- ===== src/Store/Histories.antt =====
-- crates/micromux/src/model.rs: an entry through any sequence of operations.
use micromux.Prelude.{
  ℕ, ◌+◌, ◌≤◌, ◌<◌, ◌≡◌, List, [], ◌∷◌, Bool, Option, none, some, arith, length, u64_max, ltb, keep,
  String,
}
use micromux.Text.{Text}
use micromux.LogBuffer.{lines_since, first_retained_seq}
use micromux.LogBuffer.Read.{lines_since_lem}
use micromux.Model.{ServiceEvent, ServiceSnapshot}
use micromux.Store.{
  LogUpdateKind, OutputStream, HealthResult, ServiceEntry, LogRetention, RunPath, DiskLogRecord,
  new_entry, event_history,
}
use micromux.Store.Entry.{
  append_banner, begin_entry_run, clear_visible_logs, reconfigure_log_retention,
  next_ingest_timestamp,
}
use micromux.Store.Sink.{enqueue, sink_log}
use micromux.Store.HealthLog.{start_health, append_health, finish_health}
use micromux.Store.Writer.{push_event, with_banner, record_event}
use micromux.Store.Limits.{
  make_room_for_one-snoc-length, start_health-IsSound, append_health-IsSound, finish_health-IsSound,
}
use micromux.Store.Sound.{
  IsSound, IsNext, new_entry-IsSound, append_log-IsSound, begin_entry_run-IsSound,
  clear_visible_logs-IsSound, reconfigure_log_retention-IsSound,
}

enqueue-IsSound :
    (e : ServiceEntry) (out : ServiceEntry × Option (RunPath × DiskLogRecord))
    → IsNext e out.0
    → IsNext e (enqueue out)
unfolding enqueue
enqueue-IsSound e (after, none) h = h
enqueue-IsSound e (after, some (path, written)) h = h

sink_log-IsSound :
    (now g : ℕ) (disk : Bool) (stream : OutputStream) (update : LogUpdateKind) (line : Text)
    (e : ServiceEntry)
    → e.next_log_seq < u64_max
    → IsSound e
    → IsNext e (sink_log now g disk stream update line e)
unfolding sink_log next_ingest_timestamp
sink_log-IsSound now g disk stream update line e h sound =
    enqueue-IsSound e _ (append_log-IsSound g update _ _ _ _ h sound)

with_banner-IsSound :
    (banner : Option Text) (disk : Bool) (timestamp : ℕ) (e : ServiceEntry)
    → e.next_log_seq < u64_max
    → IsSound e
    → IsNext e (with_banner banner disk timestamp e)
unfolding append_banner
with_banner-IsSound none disk timestamp e h sound = (sound, omega arith)
with_banner-IsSound (some banner) disk timestamp e h sound =
    enqueue-IsSound e _ (append_log-IsSound _ LogUpdateKind.append banner _ timestamp e h sound)

record_event-IsSound :
    (now : ℕ) (disk : Bool) (event : ServiceEvent) (detail : Text) (e : ServiceEntry)
    → e.next_log_seq < u64_max
    → IsSound e
    → IsNext e (record_event now disk event detail e)
unfolding record_event next_ingest_timestamp push_event
record_event-IsSound now disk event detail e h sound = with_banner-IsSound _ disk _ _ h (
  sound.0,
  sound.1,
  sound.2,
  sound.3,
  make_room_for_one-snoc-length event_history e.events _ (omega arith),
)

-- An operation on an entry, with the clock's time and the arguments of its caller.
pub data EntryOp : Type 0 where
  log :
      (now run_generation : ℕ) (disk : Bool)
      → OutputStream
      → LogUpdateKind
      → (line : Text) → EntryOp
  emit : (now : ℕ) (disk : Bool) → ServiceEvent → (detail : Text) → EntryOp
  begin_run : (run_generation : ℕ) → EntryOp
  clear_logs : EntryOp
  reconfigure : LogRetention → EntryOp
  start_health_attempt : (run_generation attempt : ℕ) (command : Text) → EntryOp
  append_health_line : (run_generation attempt : ℕ) → OutputStream → (line : Text) → EntryOp
  finish_health_attempt : (run_generation attempt : ℕ) → HealthResult → EntryOp
  write_snapshot : ServiceSnapshot → (started_at : Option ℕ) → EntryOp

unfoldable pub apply : EntryOp → ServiceEntry → ServiceEntry
unfolding sink_log record_event begin_entry_run clear_visible_logs reconfigure_log_retention
    start_health append_health finish_health
apply (EntryOp.log now g disk stream update line) e = sink_log now g disk stream update line e
apply (EntryOp.emit now disk event detail) e = record_event now disk event detail e
apply (EntryOp.begin_run g) e = begin_entry_run g e
apply EntryOp.clear_logs e = clear_visible_logs e
apply (EntryOp.reconfigure retention) e = reconfigure_log_retention retention e
apply (EntryOp.start_health_attempt g attempt command) e = start_health g attempt command e
apply (EntryOp.append_health_line g attempt stream line) e = append_health g attempt stream line e
apply (EntryOp.finish_health_attempt g attempt result) e = finish_health g attempt result e
apply (EntryOp.write_snapshot snapshot started_at) e = record e {
  snapshot = snapshot;
  started_at = started_at;
}

unfoldable pub apply_all : List EntryOp → ServiceEntry → ServiceEntry
unfolding apply
apply_all [] e = e
apply_all (op ∷ ops) e = apply_all ops (apply op e)

apply-IsSound :
    (op : EntryOp) (e : ServiceEntry) → e.next_log_seq < u64_max → IsSound e → IsNext e (apply op e)
unfolding apply clear_visible_logs reconfigure_log_retention
apply-IsSound (EntryOp.log now g disk stream update line) e h sound =
    sink_log-IsSound now g disk stream update line e h sound
apply-IsSound (EntryOp.emit now disk event detail) e h sound =
    record_event-IsSound now disk event detail e h sound
apply-IsSound (EntryOp.begin_run g) e h sound = begin_entry_run-IsSound g e sound
apply-IsSound EntryOp.clear_logs e h sound = (clear_visible_logs-IsSound e sound, omega arith)
apply-IsSound (EntryOp.reconfigure retention) e h sound =
    (reconfigure_log_retention-IsSound retention e sound, omega arith)
apply-IsSound (EntryOp.start_health_attempt g attempt command) e h sound =
    start_health-IsSound g attempt command e sound
apply-IsSound (EntryOp.append_health_line g attempt stream line) e h sound =
    append_health-IsSound g attempt stream line e sound
apply-IsSound (EntryOp.finish_health_attempt g attempt result) e h sound =
    finish_health-IsSound g attempt result e sound
apply-IsSound (EntryOp.write_snapshot snapshot started_at) e h sound = (sound, omega arith)

later-IsSound :
    (ops : List EntryOp) (e : ServiceEntry)
    → e.next_log_seq + length ops ≤ u64_max
    → IsSound e
    → IsSound (apply_all ops e)
unfolding apply_all
later-IsSound [] e h sound = sound
later-IsSound (op ∷ ops) e h sound =
    let (after, next) = apply-IsSound op e (omega arith) sound in
    later-IsSound ops (apply op e) (omega arith) after

-- After any sequence of fewer than 2 ^ 64 - 1 operations on a new entry: the numbers of the visible
-- lines grow from the front to the back and are below the next one; the retained runs are of
-- different generations, at most as many as configured, and hold numbers below the next one; the
-- health records are at most eight, all of the latest run, with at most 200 lines each; and at most
-- 256 events are held.
pub apply_all-IsSound :
    (ops : List EntryOp) (snapshot : ServiceSnapshot) (retention : LogRetention)
    (spool_dir : Option String) (disk : Bool)
    → length ops < u64_max
    → IsSound (apply_all ops (new_entry snapshot retention spool_dir disk))
unfolding new_entry
apply_all-IsSound ops snapshot retention spool_dir disk h =
    later-IsSound ops (new_entry snapshot retention spool_dir disk) (omega arith)
      (new_entry-IsSound snapshot retention spool_dir disk)

-- After any sequence of fewer than 2 ^ 64 - 1 operations on a new entry, a cursor read of the
-- visible log returns exactly the held lines behind the cursor, in order, with the number of the
-- first line held.
pub lines_since-apply_all :
    (ops : List EntryOp) (snapshot : ServiceSnapshot) (retention : LogRetention)
    (spool_dir : Option String) (disk : Bool) (after : ℕ)
    → length ops < u64_max
    → let b = (apply_all ops (new_entry snapshot retention spool_dir disk)).visible in
      lines_since b after ≡ (first_retained_seq b, keep (λ l. ltb after l.seq) b.entries)
lines_since-apply_all ops snapshot retention spool_dir disk after h =
    lines_since_lem _ after (apply_all-IsSound ops snapshot retention spool_dir disk h).0.0
