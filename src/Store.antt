-- ===== src/Store.antt =====
-- crates/micromux/src/model.rs: the entry that the session model keeps for a service, with
-- `RunLogEntry` of crates/micromux/src/model/runlog.rs and what is sent to the disk worker of
-- crates/micromux/src/model/disk.rs.
-- A text is the list of its characters. The disk worker's channel is the list of what was sent on
-- it, oldest first; the metadata and the read cache that a run shares with the worker are
-- arguments of the reads. The locks are left out: an operation holds its entry's lock throughout.
pub mod Runs
pub mod Entry
pub mod Sink
pub mod HealthLog
pub mod Writer
pub mod Readers
pub mod Ring
pub mod Place
pub mod Sound
pub mod Limits
pub mod Histories
pub mod Tail
pub mod Timeline
pub mod EventHistory
pub mod Late
mod Examples
use micromux.Prelude.{ℕ, ◌*◌, List, [], Bool, Option, none, some, max, String, is_some}
use micromux.Text.{Text}
use micromux.Model.{ServiceId, ExitCode, ServiceEvent, ServiceSnapshot}
use micromux.LogBuffer.{LogLine, MemoryLogRetention, MemoryLogBuffer, new}

abbrev pub model_string_max_bytes : ℕ
model_string_max_bytes = 16 * 1024

abbrev pub health_history : ℕ
health_history = 8

abbrev pub health_output_max_lines : ℕ
health_output_max_lines = 200

abbrev pub event_history : ℕ
event_history = 256

pub record LogRetention : Type 0 where
  pub memory : MemoryLogRetention
  -- `DiskLogRetention`
  pub retained_runs : ℕ

-- crates/micromux/src/scheduler/types.rs
pub data LogUpdateKind : Type 0 where
  append : LogUpdateKind
  live_snapshot : (id : ℕ) → LogUpdateKind

pub data OutputStream : Type 0 where
  stdout stderr unknown : OutputStream

pub record HealthLine : Type 0 where
  pub stream : OutputStream
  pub line : Text

pub record HealthResult : Type 0 where
  pub success : Bool
  pub exit_code : ExitCode
  pub cancelled : Bool

pub record HealthAttempt : Type 0 where
  pub run_generation : ℕ
  pub attempt : ℕ
  pub command : Text
  pub output : List HealthLine
  pub result : Option HealthResult

-- An event as it is stored, with the text that describes it.
pub record StoredEvent : Type 0 where
  pub event : ServiceEvent
  pub detail : Text

pub data DiskLogOp : Type 0 where
  append replace_last : DiskLogOp

pub record DiskLogRecord : Type 0 where
  pub seq : ℕ
  pub run_generation : ℕ
  pub timestamp_unix_ms : ℕ
  pub op : DiskLogOp
  pub line : Text

-- The file of a run: `<spool>/<service>/run-<generation>.jsonl`.
pub record RunPath : Type 0 where
  pub spool_dir : String
  pub service_id : ServiceId
  pub run_generation : ℕ

-- `DiskLogCommand`, but for `Flush`.
pub data DiskCall : Type 0 where
  begin : RunPath → DiskCall
  write : RunPath → DiskLogRecord → DiskCall
  remove : RunPath → DiskCall

pub record RunLogEntry : Type 0 where
  pub run_generation : ℕ
  pub path : Option RunPath
  pub last_seq : Option ℕ
  pub live_snapshot_id : Option ℕ

pub record ServiceEntry : Type 0 where
  pub snapshot : ServiceSnapshot
  pub started_at : Option ℕ
  pub latest_begun_run : ℕ
  pub visible : MemoryLogBuffer
  pub runs : List RunLogEntry
  pub next_log_seq : ℕ
  pub last_ingest_timestamp_unix_ms : ℕ
  pub log_retention : LogRetention
  pub spool_dir : Option String
  -- Whether there is a disk worker, and what was sent to it for this service.
  pub disk : Bool
  pub sent : List DiskCall
  pub health : List HealthAttempt
  pub events : List StoredEvent
  pub next_event_seq : ℕ

abbrev pub at_least_one : LogRetention → LogRetention
at_least_one retention = record retention { retained_runs = max retention.retained_runs 1 }

-- `ServiceEntry::new`
unfoldable pub new_entry :
    ServiceSnapshot → LogRetention → (spool_dir : Option String) (disk : Bool) → ServiceEntry
unfolding new
new_entry snapshot log_retention spool_dir disk = record {
  snapshot = snapshot;
  started_at = none;
  latest_begun_run = snapshot.run_generation;
  visible = new log_retention.memory;
  runs = [];
  next_log_seq = 1;
  last_ingest_timestamp_unix_ms = 0;
  log_retention = at_least_one log_retention;
  spool_dir = spool_dir;
  disk = disk;
  sent = [];
  health = [];
  events = [];
  next_event_seq = 1;
}
