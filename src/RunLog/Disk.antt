-- ===== src/RunLog/Disk.antt =====
-- crates/micromux/src/model/disk.rs: the disk worker's work on the file of one run.
-- Of the file system, the outcomes of the calls are arguments; `encode` gives the bytes of a
-- record's line, if it can be encoded. The files of different runs are independent of each other.
use micromux.Prelude.{
  ℕ, ◌+◌, ◌*◌, List, [], ◌∷◌, ◌++◌, Bool, not, ◌&&◌, Option, none, some, ltb, ◌==◌, if◌then◌else◌,
  saturating_add,
}
use micromux.Store.{DiskLogOp, DiskLogRecord}
use micromux.Store.Readers.{DiskRunMetadata}
use micromux.Store.Entry.{same_seq}
use micromux.RunLog.{FileLine, unparsed, parsed}
use micromux.RunLog.Segment.{total_size, is_append}

abbrev pub disk_run_file_max_bytes : ℕ
disk_run_file_max_bytes = 64 * 1024 * 1024

abbrev pub default_metadata : DiskRunMetadata
default_metadata = record {
  segment_epoch = 0;
  readable_len = 0;
  line_count = 0;
  first_seq = none;
  last_seq = none;
}

unfoldable pub begin_segment : DiskRunMetadata → DiskRunMetadata
begin_segment m = record {
  segment_epoch = saturating_add m.segment_epoch 1;
  readable_len = 0;
  line_count = 0;
  first_seq = none;
  last_seq = none;
}

abbrev pub or_insert : Option ℕ → ℕ → Option ℕ
or_insert none seq = some seq
or_insert (some first) seq = some first

unfoldable pub observe : DiskLogOp → (seq readable_len : ℕ) → DiskRunMetadata → DiskRunMetadata
observe DiskLogOp.append seq readable_len m = record m {
  readable_len = readable_len;
  line_count = saturating_add m.line_count 1;
  first_seq = or_insert m.first_seq seq;
  last_seq = some seq;
}
observe DiskLogOp.replace_last seq readable_len m = record m {
  readable_len = readable_len;
  last_seq = some seq;
}

-- The file, its bytes behind the last newline, the worker's writer (`bytes_written`) and the
-- metadata.
pub record RunFile : Type 0 where
  pub lines : List FileLine
  pub partial : ℕ
  pub writer : Option ℕ
  pub metadata : DiskRunMetadata

abbrev pub new_file : RunFile
new_file = record { lines = []; partial = 0; writer = none; metadata = default_metadata }

-- How a write goes: in full, not at all once it is rolled back, or in part.
pub data WriteOutcome : Type 0 where
  written : WriteOutcome
  rolled_back : WriteOutcome
  cut_off : (bytes : ℕ) → WriteOutcome

pub record Outcomes : Type 0 where
  pub opens : Bool
  -- Whether `metadata()` gives the length of a file that was opened to append.
  pub measures : Bool
  pub truncates : Bool
  pub write : WriteOutcome

-- A line in the file. Behind an unfinished one it is a part of that line.
abbrev pub add_line : FileLine → RunFile → RunFile
add_line l f = record f {
  lines =
      f.lines ++ (if f.partial == 0 then l else unparsed (f.partial + total_size (l ∷ []))) ∷ [];
  partial = 0;
}

-- `write_record`, and what is made of its result.
unfoldable pub write_record :
    WriteOutcome → (record_bytes bytes_written : ℕ) → DiskLogRecord → RunFile → RunFile
unfolding observe
write_record written record_bytes bytes_written r f =
    let total = saturating_add bytes_written record_bytes in
    record (add_line (parsed record_bytes r) f) {
      writer = some total;
      metadata = observe r.op r.seq total f.metadata;
    }
write_record rolled_back record_bytes bytes_written r f = record f { writer = none }
write_record (cut_off bytes) record_bytes bytes_written r f = record f {
  writer = none;
  partial = f.partial + bytes;
}

abbrev pub file_size : RunFile → ℕ
file_size f = total_size f.lines + f.partial

-- The length of a file that was opened to append: `metadata().map_or(0, …)`.
abbrev pub measured_size : (measures : Bool) → RunFile → ℕ
measured_size measures f = if measures then file_size f else 0

-- `open_disk_log_writer` where there is no writer: the bytes written before.
abbrev pub opened : Outcomes → RunFile → Option ℕ
opened outcomes f = elim f.writer [
  | some bytes_written ↦ some bytes_written
  | none ↦ if outcomes.opens then some (measured_size outcomes.measures f) else none
]

-- A replacement of a line that the file does not end with is an append.
abbrev pub corrected : DiskRunMetadata → DiskLogRecord → DiskLogRecord
corrected m r = record r {
  op =
      if not (is_append r.op) && not (same_seq m.last_seq (some r.seq))
      then DiskLogOp.append
      else r.op;
}

abbrev pub rotates : (max_bytes bytes_written record_bytes : ℕ) → Bool
rotates max_bytes bytes_written record_bytes =
    ltb 0 bytes_written && ltb max_bytes (saturating_add bytes_written record_bytes)

-- The truncating open, with the new segment that it begins.
unfoldable pub truncated : RunFile → RunFile
unfolding begin_segment
truncated f = record {
  lines = [];
  partial = 0;
  writer = some 0;
  metadata = begin_segment f.metadata;
}

abbrev pub as_append : DiskLogRecord → DiskLogRecord
as_append r = record r { op = DiskLogOp.append }

unfoldable pub rotate :
    (encode : DiskLogRecord → Option ℕ)
    → Outcomes
    → (record_bytes : ℕ) → DiskLogRecord
    → RunFile
    → RunFile
unfolding write_record truncated
rotate encode outcomes record_bytes r f =
    if not outcomes.truncates
    then record f { writer = none }
    else if is_append r.op
    then write_record outcomes.write record_bytes 0 r (truncated f)
    else elim (encode (as_append r)) [
      | none ↦ truncated f
      | some bytes ↦ write_record outcomes.write bytes 0 (as_append r) (truncated f)
    ]

-- The part behind the check for a writer.
abbrev pub write_open :
    (encode : DiskLogRecord → Option ℕ) (max_bytes : ℕ)
    → Outcomes
    → (bytes_written : ℕ) → DiskLogRecord
    → RunFile
    → RunFile
write_open encode max_bytes outcomes bytes_written retained f = elim (encode retained) [
  | none ↦ f
  | some record_bytes ↦
      if rotates max_bytes bytes_written record_bytes
      then rotate encode outcomes record_bytes retained f
      else write_record outcomes.write record_bytes bytes_written retained f
]

unfoldable pub write_disk_record_with_limit :
    (encode : DiskLogRecord → Option ℕ) (max_bytes : ℕ)
    → Outcomes
    → DiskLogRecord
    → RunFile
    → RunFile
unfolding rotate write_record
write_disk_record_with_limit encode max_bytes outcomes r f = elim (opened outcomes f) [
  | none ↦ f
  | some bytes_written ↦
      write_open encode max_bytes outcomes bytes_written (corrected f.metadata r)
        (record f { writer = some bytes_written })
]

unfoldable pub write_disk_record :
    (encode : DiskLogRecord → Option ℕ) → Outcomes → DiskLogRecord → RunFile → RunFile
unfolding write_disk_record_with_limit
write_disk_record encode outcomes r f =
    write_disk_record_with_limit encode disk_run_file_max_bytes outcomes r f

-- `DiskLogCommand::Begin`
unfoldable pub begin_file : Outcomes → RunFile → RunFile
unfolding truncated
begin_file outcomes f = if outcomes.truncates then truncated f else record f { writer = none }

-- The commands of a run, in their order, behind its `Begin`.
unfoldable pub write_all :
    (encode : DiskLogRecord → Option ℕ) → List (Outcomes × DiskLogRecord) → RunFile → RunFile
unfolding write_disk_record
write_all encode [] f = f
write_all encode ((outcomes, r) ∷ rest) f =
    write_all encode rest (write_disk_record encode outcomes r f)
