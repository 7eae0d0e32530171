-- ===== src/RunLog/Examples.antt =====
-- The file of a run with two appends, a damaged line, a replacement and a further append.
use micromux.Prelude.{
  if◌then◌else◌, ◌==◌, ℕ, ◌+◌, ◌≤◌, ◌≡◌, refl, List, [], ◌∷◌, ◌++◌, true, false, Option, none, some,
  arith, keep, length, leb, u64_max,
}
use micromux.Text.{Text}
use micromux.LogBuffer.{LogLine}
use micromux.Store.{DiskLogOp, DiskLogRecord}
use micromux.RunLog.{FileLine, unparsed, parsed, RunLogReadIndex, default_index}
use micromux.RunLog.Segment.{total_size, read_run_log_segment}
use micromux.RunLog.Consistent.{Attempt}
use micromux.RunLog.Replay.{IsLog, replay}
use micromux.RunLog.Loop.{first_of, is_shown}
use micromux.RunLog.Indexed.{IsIndexOf}
use micromux.RunLog.Exact.{read_run_log_segment_lem}
use micromux.RunLog.Paging.{read_run_log_segment-pages}
use micromux.RunLog.DirName.{id_bytes, service_log_dir_name, id_bytes-service_log_dir_name}
use micromux.RunLog.Disk.{Outcomes, written, rolled_back, write_all, new_file}
use micromux.RunLog.Written.{write_all-IsLog}
use micromux.RunLog.Fitted.{IsEncoder}
use micromux.RunLog.Queue.{
  DiskQueue, IsCounted, send_write, take_write, disk_log_queue_max_bytes, sum, send_write-IsCounted,
}

abbrev numbered : DiskLogOp → ℕ → Text → DiskLogRecord
numbered op n text = record {
  seq = n;
  run_generation = 1;
  timestamp_unix_ms = 0;
  op = op;
  line = text;
}

abbrev first_append : DiskLogRecord
first_append = numbered DiskLogOp.append 1 (b'a' ∷ [])

abbrev second_append : DiskLogRecord
second_append = numbered DiskLogOp.append 2 (b'b' ∷ [])

abbrev seen_lines : List FileLine
seen_lines = parsed 10 first_append ∷ parsed 11 second_append ∷ []

abbrev later_lines : List FileLine
later_lines =
    unparsed 3
    ∷ parsed 12 (numbered DiskLogOp.replace_last 2 (b'c' ∷ []))
    ∷ parsed 13 (numbered DiskLogOp.append 5 (b'd' ∷ []))
    ∷ []

abbrev run_file : List FileLine
run_file = seen_lines ++ later_lines

run_file-IsLog : IsLog none run_file
run_file-IsLog = (
  omega arith,
  tt,
  (omega arith, omega arith, (omega arith, (omega arith, refl, (omega arith, omega arith, tt)))),
)

-- An index of its first two lines.
abbrev early_index : RunLogReadIndex
early_index = record {
  segment_epoch = 4;
  scanned_to = 21;
  last_append_seq = some 2;
  append_offsets = (1, 0) ∷ (2, 10) ∷ [];
}

early_index-IsIndexOf : IsIndexOf run_file early_index
early_index-IsIndexOf = (
  (seen_lines, later_lines, refl, refl, (omega arith, (omega arith, tt))),
  (
    (
      ([], parsed 11 second_append ∷ later_lines, 10, first_append, refl, refl, refl, refl),
      omega arith,
    ),
    (
      (
        (parsed 10 first_append ∷ [], later_lines, 11, second_append, refl, refl, refl, refl),
        omega arith,
      ),
      tt,
    ),
  ),
)

read_run_log_segment_lem_example :
    (read_run_log_segment run_file none (some 1) (some 1) early_index).0
    ≡ first_of (some 1) (keep (is_shown (some 1)) (replay none run_file))
read_run_log_segment_lem_example =
    read_run_log_segment_lem run_file (some 1) (some 1) early_index run_file-IsLog
      early_index-IsIndexOf

-- That run: the line numbered 2, as it was replaced.
read_run_log_segment-run :
    (read_run_log_segment run_file none (some 1) (some 1) early_index).0
    ≡ (record { seq = 2; run_generation = 1; timestamp_unix_ms = 0; line = b'c' ∷ [] }) ∷ []
unfolding read_run_log_segment
read_run_log_segment-run = refl

-- A file that is rotated during the first attempt, which meets a part of it, and that cannot be
-- read past four lines.
abbrev rotating_once : ℕ → Attempt
rotating_once k = record {
  segment_epoch = 4 + k;
  readable_len = 49;
  readable = if k == 0 then later_lines else run_file;
  opens = true;
  seeks = true;
  fails_after = some 4;
  current_epoch = 5;
}

-- A file whose numbers have a gap, and an index of all of it.
abbrev gap_file : List FileLine
gap_file =
    parsed 10 (numbered DiskLogOp.append 1 [])
    ∷ parsed 10 (numbered DiskLogOp.append 2 [])
    ∷ parsed 10 (numbered DiskLogOp.append 3 [])
    ∷ parsed 10 (numbered DiskLogOp.append 9 [])
    ∷ []

abbrev gap_index : RunLogReadIndex
gap_index = record {
  segment_epoch = 0;
  scanned_to = 40;
  last_append_seq = some 9;
  append_offsets = (1, 0) ∷ (2, 10) ∷ (3, 20) ∷ (9, 30) ∷ [];
}

-- Of the last three lines, a read with the index gives two, and one without gives three.
tail-run :
    (length (read_run_log_segment gap_file (some 3) none none gap_index).0 ≡ 2)
    × (length (read_run_log_segment gap_file (some 3) none none default_index).0 ≡ 3)
    × ((read_run_log_segment gap_file none none none default_index).1 ≡ gap_index)
unfolding read_run_log_segment
tail-run = (refl, refl, refl)

-- Every line has ten bytes.
abbrev ten_bytes : DiskLogRecord → Option ℕ
ten_bytes r = some 10

some_number : {a b : ℕ} → some a ≡ some b → a ≡ b
some_number e = cc

ten_bytes-IsEncoder : IsEncoder ten_bytes
ten_bytes-IsEncoder r n e = (omega (arith, some_number e), omega (arith, some_number e))

abbrev all_well : Outcomes
all_well = record { opens = true; measures = true; truncates = true; write = written }

abbrev undone : Outcomes
undone = record { opens = true; measures = true; truncates = true; write = rolled_back }

-- The write of the second record fails, so that the replacement of its line has none to replace.
abbrev run_stream : List (Outcomes × DiskLogRecord)
run_stream =
    (all_well, first_append)
    ∷ (undone, second_append)
    ∷ (all_well, numbered DiskLogOp.replace_last 2 (b'c' ∷ []))
    ∷ []

write_all-IsLog_example :
    let f = write_all ten_bytes run_stream new_file in
    IsLog none f.lines
    × (total_size f.lines ≡ f.metadata.readable_len)
    × (total_size f.lines ≤ u64_max)
write_all-IsLog_example =
    write_all-IsLog ten_bytes run_stream ten_bytes-IsEncoder
      (tt, tt, refl, (omega arith, tt, refl, (omega arith, tt, refl, tt)))

-- It is written as an append.
write_all-run :
    (write_all ten_bytes run_stream new_file).lines
    ≡ parsed 10 first_append ∷ parsed 10 (numbered DiskLogOp.append 2 (b'c' ∷ [])) ∷ []
unfolding write_all
write_all-run = refl

-- The file is opened again, but its length cannot be read.
abbrev unmeasured : Outcomes
unmeasured = record { opens = true; measures = false; truncates = true; write = written }

abbrev unmeasured_stream : List (Outcomes × DiskLogRecord)
unmeasured_stream =
    (all_well, first_append) ∷ (undone, second_append) ∷ (unmeasured, second_append) ∷ []

-- The file has 20 bytes, of which readers are told 10.
unmeasured-run :
    (total_size (write_all ten_bytes unmeasured_stream new_file).lines ≡ 20)
    × ((write_all ten_bytes unmeasured_stream new_file).metadata.readable_len ≡ 10)
unfolding write_all
unmeasured-run = (refl, refl)

-- A queue with room for five bytes more.
abbrev full_queue : DiskQueue
full_queue = record {
  budget = record { queued_bytes = 8_388_603; overflow_warned = false };
  permits = 8_388_600 ∷ 3 ∷ [];
}

send_write-IsCounted_example :
    IsCounted (send_write 6 full_queue).0
    × IsCounted (take_write full_queue)
    × ((send_write 6 full_queue).1 ≡ leb (sum full_queue.permits + 6) disk_log_queue_max_bytes)
send_write-IsCounted_example = send_write-IsCounted 6 full_queue (refl, omega arith)

abbrev first_line : LogLine
first_line = record { seq = 1; run_generation = 1; timestamp_unix_ms = 0; line = b'a' ∷ [] }

read_run_log_segment-pages_example :
    (read_run_log_segment run_file none none (some 1) early_index).0
      ++ (read_run_log_segment run_file none (some 1) none early_index).0
    ≡ (read_run_log_segment run_file none none none early_index).0
unfolding read_run_log_segment
read_run_log_segment-pages_example =
    read_run_log_segment-pages run_file none 1 early_index early_index first_line run_file-IsLog
      early_index-IsIndexOf early_index-IsIndexOf refl

-- "é", in two bytes.
abbrev accented_id : List ℕ
accented_id = 0xc3 ∷ 0xa9 ∷ []

id_bytes-service_log_dir_name_example :
    (id_bytes (service_log_dir_name accented_id) ≡ some accented_id)
    × (1 ≤ length (service_log_dir_name accented_id))
id_bytes-service_log_dir_name_example =
    id_bytes-service_log_dir_name accented_id (omega arith, (omega arith, tt))

service_log_dir_name-run : service_log_dir_name accented_id ≡ b'c' ∷ b'3' ∷ b'a' ∷ b'9' ∷ []
unfolding service_log_dir_name
service_log_dir_name-run = refl
