-- ===== src/Store/Sink.antt =====
-- crates/micromux/src/model.rs: `RunSink` and `SessionModelWriter`, which write to the model.
-- The roster is an association list in the order of insertion, and what is broadcast to the
-- subscribers is a list, oldest first. A line that the worker's full queue drops is none of these.
use micromux.Prelude.{
  ℕ, List, [], ◌∷◌, ◌++◌, Bool, Option, none, some, leb, if◌then◌else◌, map_or, length, String,
  lookup, insert,
}
use micromux.Text.{Text, truncate_to_first_bytes}
use micromux.Model.{ServiceId}
use micromux.Store.{
  LogUpdateKind, live_snapshot, OutputStream, DiskLogRecord, RunPath, write, ServiceEntry,
  model_string_max_bytes,
}
use micromux.Store.Entry.{next_ingest_timestamp, append_log}

pub data ChangeKind : Type 0 where
  status logs health roster events heartbeat unknown : ChangeKind

-- `Inner`
pub record Inner : Type 0 where
  pub services : List (ServiceId × ServiceEntry)
  pub published : List (ServiceId × ChangeKind)
  pub spool_dir : Option String
  pub disk : Bool

unfoldable pub publish : ServiceId → ChangeKind → Inner → Inner
publish service_id kind m = record m { published = m.published ++ (service_id, kind) ∷ [] }

abbrev pub store_entry : ServiceId → ServiceEntry → Inner → Inner
store_entry id e m = record m { services = insert id e m.services }

-- `PendingDiskWrite::enqueue`
unfoldable pub enqueue : ServiceEntry × Option (RunPath × DiskLogRecord) → ServiceEntry
enqueue (e, none) = e
enqueue (e, some (path, written)) = record e { sent = e.sent ++ write path written ∷ [] }

-- "[stderr] "
abbrev pub stderr_prefix : Text
stderr_prefix = b'[' ∷ b's' ∷ b't' ∷ b'd' ∷ b'e' ∷ b'r' ∷ b'r' ∷ b']' ∷ b' ' ∷ []

abbrev pub prefixed : OutputStream → Text → Text
prefixed OutputStream.stdout line = line
prefixed OutputStream.unknown line = line
prefixed OutputStream.stderr line = stderr_prefix ++ line

abbrev pub cut_for : LogUpdateKind → Text → Text
cut_for LogUpdateKind.append line = truncate_to_first_bytes line model_string_max_bytes
cut_for (live_snapshot id) line = line

abbrev pub disk_copy : (disk : Bool) → Text → Option Text
disk_copy disk line = if disk then some line else none

-- What `RunSink::append_log` does to the entry.
unfoldable pub sink_log :
    (now_ms run_generation : ℕ) (disk : Bool)
    → OutputStream
    → LogUpdateKind
    → Text
    → ServiceEntry
    → ServiceEntry
unfolding next_ingest_timestamp append_log enqueue truncate_to_first_bytes
sink_log now_ms run_generation disk stream update line e =
    let shown = cut_for update (prefixed stream line) in
    let (stamped, timestamp_unix_ms) = next_ingest_timestamp now_ms e in
    enqueue
      (append_log run_generation update shown (disk_copy disk shown) timestamp_unix_ms stamped)

unfoldable pub append_run_log :
    (now_ms : ℕ)
    → ServiceId
    → (run_generation : ℕ) → OutputStream
    → LogUpdateKind
    → Text
    → Inner
    → Inner
unfolding sink_log publish
append_run_log now_ms id run_generation stream update line m = map_or (lookup id m.services) m (λ e.
    publish id ChangeKind.logs
      (store_entry id (sink_log now_ms run_generation m.disk stream update line e) m))

-- `while health.len() >= HEALTH_HISTORY { pop_front }` and the like.
module _ {ℓ} {A : Type ℓ} where
  unfoldable pub make_room_for_one : (most : ℕ) → List A → List A
  make_room_for_one most [] = []
  make_room_for_one most (x ∷ xs) =
      let rest = make_room_for_one most xs in if leb most (length (x ∷ xs)) then rest else x ∷ xs
