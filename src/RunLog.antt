-- ===== src/RunLog.antt =====
-- crates/micromux/src/model/runlog.rs: reading the file of a run, and of
-- crates/micromux/src/model/disk.rs what the disk worker writes to it.
-- A file is the list of its lines: the bytes of a line with its newline, and the record that it
-- parses to, if any. A reader is given the lines of the readable prefix, whose bytes are the
-- `readable_len` that the worker publishes after each complete record, where the file is not rotated
-- meanwhile and the worker could read the length of each file that it opened again.
pub mod Segment
pub mod Consistent
pub mod Replay
pub mod Loop
pub mod Split
pub mod Indexed
pub mod Cached
pub mod Start
pub mod Delivered
pub mod Exact
pub mod DirName
pub mod Disk
pub mod Fitted
pub mod Written
pub mod Queue
pub mod Paging
pub mod Rotation
mod Examples
use micromux.Prelude.{
  ℕ, zero, suc, ◌+◌, ◌-◌, max, min, List, [], ◌∷◌, Bool, true, false, Option, none, some, ltb, leb,
  ◌==◌, if◌then◌else◌, length, drop, map_or,
}
use micromux.Store.{DiskLogRecord}

abbrev pub run_log_offset_cache : ℕ
run_log_offset_cache = 4096

pub data FileLine : Type 0 where
  unparsed : (size : ℕ) → FileLine
  parsed : (size : ℕ) → DiskLogRecord → FileLine

abbrev pub size_of : FileLine → ℕ
size_of (unparsed size) = size
size_of (parsed size r) = size

pub record RunLogReadIndex : Type 0 where
  pub segment_epoch : ℕ
  pub scanned_to : ℕ
  pub last_append_seq : Option ℕ
  -- The numbers of appended records, and where they begin.
  pub append_offsets : List (ℕ × ℕ)

abbrev pub default_index : RunLogReadIndex
default_index = record {
  segment_epoch = 0;
  scanned_to = 0;
  last_append_seq = none;
  append_offsets = [];
}

unfoldable pub reset_scan : RunLogReadIndex → RunLogReadIndex
reset_scan index = record index { scanned_to = 0; last_append_seq = none; append_offsets = [] }

unfoldable pub reset_for_segment : (segment_epoch : ℕ) → RunLogReadIndex → RunLogReadIndex
unfolding reset_scan
reset_for_segment segment_epoch index =
    if index.segment_epoch == segment_epoch
    then index
    else record (reset_scan index) { segment_epoch = segment_epoch }

unfoldable pub reset_if_past_end : (file_len : ℕ) → RunLogReadIndex → RunLogReadIndex
unfolding reset_scan
reset_if_past_end file_len index = if ltb file_len index.scanned_to then reset_scan index else index

abbrev pub or_else {ℓ} : {A : Type ℓ} → Option A → Option A → Option A
or_else none o = o
or_else (some a) o = some a

-- The offset of the last of the leading entries whose number is at most `seq`.
unfoldable pub offset_at_or_before : (seq : ℕ) → List (ℕ × ℕ) → Option ℕ
offset_at_or_before seq [] = none
offset_at_or_before seq ((known_seq, offset) ∷ rest) =
    let later = offset_at_or_before seq rest in
    if leb known_seq seq then or_else later (some offset) else none

-- The insertion at the partition point of `known_seq < seq`.
unfoldable pub insert_offset : (seq offset : ℕ) → List (ℕ × ℕ) → List (ℕ × ℕ)
insert_offset seq offset [] = (seq, offset) ∷ []
insert_offset seq offset ((known_seq, known) ∷ rest) =
    let later = insert_offset seq offset rest in
    if ltb known_seq seq
    then (known_seq, known) ∷ later
    else if known_seq == seq
    then (known_seq, known) ∷ rest
    else (seq, offset) ∷ (known_seq, known) ∷ rest

abbrev pub cap_offsets : List (ℕ × ℕ) → List (ℕ × ℕ)
cap_offsets offsets = drop (length offsets - run_log_offset_cache) offsets

unfoldable pub observe_append : (seq offset : ℕ) → RunLogReadIndex → RunLogReadIndex
unfolding insert_offset
observe_append seq offset index = record index {
  last_append_seq = some (map_or index.last_append_seq seq (λ last_seq. max last_seq seq));
  append_offsets = cap_offsets (insert_offset seq offset index.append_offsets);
}

unfoldable pub mark_scanned_to : (offset : ℕ) → RunLogReadIndex → RunLogReadIndex
mark_scanned_to offset index = record index { scanned_to = max index.scanned_to offset }

unfoldable pub start_offset_for_read : RunLogReadIndex → (tail after : Option ℕ) (file_len : ℕ) → ℕ
unfolding offset_at_or_before
start_offset_for_read index (some tail) after file_len = elim index.last_append_seq [
  | none ↦ 0
  | some last ↦
      min (map_or (offset_at_or_before (last - tail) index.append_offsets) 0 (λ offset. offset))
        file_len
]
start_offset_for_read index none none file_len = 0
start_offset_for_read index none (some after) file_len =
    if map_or index.last_append_seq false (λ seq. leb seq after)
    then min index.scanned_to file_len
    else map_or (offset_at_or_before after index.append_offsets) 0 (λ offset. offset)
