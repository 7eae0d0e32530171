-- ===== src/RunLog/Segment.antt =====
-- crates/micromux/src/model/runlog.rs: `read_run_log_segment`.
use micromux.Prelude.{
  ℕ, zero, suc, ◌+◌, ◌-◌, List, [], ◌∷◌, ◌++◌, Bool, true, false, not, ◌&&◌, ◌||◌, Option, none,
  some, leb, ◌==◌, if◌then◌else◌, length, drop, saturating_add, is_none,
}
use micromux.LogBuffer.{LogLine, back, pop_back}
use micromux.Store.{DiskLogOp, DiskLogRecord}
use micromux.Store.Readers.{take}
use micromux.RunLog.{
  FileLine, unparsed, parsed, size_of, RunLogReadIndex, reset_scan, reset_if_past_end,
  observe_append, mark_scanned_to, start_offset_for_read,
}

abbrev pub total_size : List FileLine → ℕ
total_size [] = 0
total_size (l ∷ rest) = size_of l + total_size rest

-- `while lines.len() > tail { pop_front }`
abbrev pub last_of : Option ℕ → List LogLine → List LogLine
last_of none lines = lines
last_of (some tail) lines = drop (length lines - tail) lines

abbrev pub is_zero : Option ℕ → Bool
is_zero none = false
is_zero (some n) = n == 0

abbrev pub is_full : (limit : Option ℕ) → List LogLine → Bool
is_full none lines = false
is_full (some limit) lines = leb limit (length lines)

unfoldable pub push_log_line : (tail limit : Option ℕ) → LogLine → List LogLine → List LogLine
push_log_line tail limit line lines =
    if is_zero tail || is_zero limit
    then lines
    else if is_full limit lines
    then lines
    else last_of tail (lines ++ line ∷ [])

abbrev pub line_of : DiskLogRecord → LogLine
line_of r = record {
  seq = r.seq;
  run_generation = r.run_generation;
  timestamp_unix_ms = r.timestamp_unix_ms;
  line = r.line;
}

abbrev pub is_append : DiskLogOp → Bool
is_append DiskLogOp.append = true
is_append DiskLogOp.replace_last = false

-- `ReplaceLast`: over the last line of the same number, or as the first line.
abbrev pub overwrite : (tail limit : Option ℕ) → LogLine → List LogLine → List LogLine
overwrite tail limit line lines = elim (back lines) [
  | none ↦ push_log_line tail limit line lines
  | some last ↦ if last.seq == line.seq then pop_back lines ++ line ∷ [] else lines
]

abbrev pub take_record : (tail limit : Option ℕ) → DiskLogRecord → List LogLine → List LogLine
take_record tail limit r lines =
    if is_append r.op
    then push_log_line tail limit (line_of r) lines
    else overwrite tail limit (line_of r) lines

-- `after.is_some_and(|cursor| record.seq <= cursor)`
abbrev pub is_behind : (after : Option ℕ) → (seq : ℕ) → Bool
is_behind none seq = false
is_behind (some after) seq = leb seq after

abbrev pub is_done : (tail limit : Option ℕ) → DiskLogRecord → List LogLine → Bool
is_done tail limit r lines = is_none tail && (is_full limit lines && is_append r.op)

abbrev pub observed : DiskLogRecord → (offset : ℕ) → RunLogReadIndex → RunLogReadIndex
observed r offset index = if is_append r.op then observe_append r.seq offset index else index

-- The loop over the lines from an offset on.
unfoldable pub scan :
    (tail after limit : Option ℕ)
    → List FileLine
    → (offset : ℕ) → List LogLine
    → RunLogReadIndex
    → List LogLine × RunLogReadIndex
unfolding mark_scanned_to observe_append push_log_line
scan tail after limit [] offset lines index = (lines, index)
scan tail after limit (unparsed size ∷ rest) offset lines index =
    let next = saturating_add offset size in
    scan tail after limit rest next lines (mark_scanned_to next index)
scan tail after limit (parsed size r ∷ rest) offset lines index =
    let next = saturating_add offset size in
    let seen = observed r offset (mark_scanned_to next index) in
    let behind = is_behind after r.seq in
    let shown = if behind then lines else take_record tail limit r lines in
    let further = scan tail after limit rest next shown seen in
    if not behind && is_done tail limit r lines then (lines, seen) else further

-- The lines from a byte offset on. Behind the beginning of a line its rest is no record.
unfoldable pub seek : (offset : ℕ) → List FileLine → List FileLine
seek zero lines = lines
seek (suc n) [] = []
seek (suc n) (l ∷ rest) =
    let further = seek (suc n - size_of l) rest in
    if leb (size_of l) (suc n) then further else unparsed (size_of l - suc n) ∷ rest

-- What the reads give, if one fails behind some lines (`Err(err) => break`).
abbrev pub delivered : (fails_after : Option ℕ) → List FileLine → List FileLine
delivered none lines = lines
delivered (some n) lines = take n lines

-- A read of `readable_len` bytes, which are the readable lines where the file is not rotated.
unfoldable pub read_segment :
    (readable_len : ℕ) (fails_after : Option ℕ) (readable : List FileLine)
    (tail after limit : Option ℕ)
    → RunLogReadIndex
    → List LogLine × RunLogReadIndex
unfolding reset_if_past_end reset_scan start_offset_for_read seek scan
read_segment readable_len fails_after readable tail after limit index =
    let kept = reset_if_past_end readable_len index in
    let start = start_offset_for_read kept tail after readable_len in
    scan tail after limit (delivered fails_after (seek start readable)) start []
      (if start == 0 then reset_scan kept else kept)

-- A read of all readable lines.
unfoldable pub read_run_log_segment :
    (readable : List FileLine) (tail after limit : Option ℕ)
    → RunLogReadIndex
    → List LogLine × RunLogReadIndex
unfolding read_segment
read_run_log_segment readable tail after limit index =
    read_segment (total_size readable) none readable tail after limit index
