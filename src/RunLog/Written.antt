-- ===== src/RunLog/Written.antt =====
-- crates/micromux/src/model/disk.rs: what the disk worker leaves in the file of a run.
use micromux.Prelude.{
  ℕ, ◌+◌, ◌≤◌, ◌<◌, ◌≡◌, refl, sym, ◌∙◌, List, [], ◌∷◌, Bool, true, false, Option, none, some,
  arith, if◌then◌else◌, Bool-cases, Option-cases, inl, inr, u64_max,
}
use micromux.Store.{DiskLogOp, DiskLogRecord}
use micromux.RunLog.Segment.{total_size, is_append}
use micromux.RunLog.Disk.{
  RunFile, new_file, Outcomes, rotate, truncated, corrected, rotates, opened, write_open,
  write_disk_record_with_limit, write_disk_record, write_all, as_append, measured_size,
  disk_run_file_max_bytes, begin_segment,
}
use micromux.RunLog.Replay.{IsLog, Fits}
use micromux.RunLog.Split.{current_after}
use micromux.RunLog.Fitted.{
  IsAfter, IsWhole, IsStream, IsEncoder, IsNotAbove, IsAt, IsWritten, write_record-IsWritten,
  corrected-Fits, after_above, later-IsWritten,
}

truncated-IsWritten : (last : Option ℕ) (f : RunFile) → IsWritten last (truncated f)
unfolding truncated begin_segment
truncated-IsWritten last f = (tt, refl, refl, refl, tt, refl, omega arith)

Fits-empty_op : (op : DiskLogOp) (seq : ℕ) → is_append op ≡ true → Fits none op seq
Fits-empty_op DiskLogOp.append seq h = tt
Fits-empty_op DiskLogOp.replace_last seq h = cc

Fits-empty : (r : DiskLogRecord) → is_append r.op ≡ true → Fits none r.op r.seq
Fits-empty r h = Fits-empty_op r.op r.seq h

rotate-IsWritten :
    (encode : DiskLogRecord → Option ℕ) (outcomes : Outcomes) (size : ℕ) (last : Option ℕ)
    (r : DiskLogRecord) (f : RunFile)
    → IsEncoder encode
    → IsWhole outcomes.write
    → encode r ≡ some size
    → IsNotAbove last (some r.seq)
    → IsWritten last f
    → IsWritten (some r.seq) (rotate encode outcomes size r f)
unfolding rotate truncated
rotate-IsWritten encode outcomes size last r f encoder whole e above h =
    elim (Bool-cases outcomes.truncates) [
      | inr failed ↦
          let kept = later-IsWritten last (some r.seq) f above h in
          rw failed (kept.0, kept.1, kept.2, kept.3, kept.4, tt, kept.6)
      | inl opens ↦ elim (Bool-cases (is_append r.op)) [
        | inl appended ↦
            rw (opens, appended)
              (write_record-IsWritten outcomes.write size 0 r last (truncated f) whole
                (truncated-IsWritten last f) above refl (encoder r size e).0
                (omega (arith, (encoder r size e).1)) (Fits-empty r appended))
        | inr replaced ↦ elim (Option-cases (encode (as_append r))) [
          | inl none_written ↦
              rw (opens, replaced, none_written) (truncated-IsWritten (some r.seq) f)
          | inr (bytes, encoded) ↦
              rw (opens, replaced, encoded)
                (write_record-IsWritten outcomes.write bytes 0 (as_append r) last (truncated f)
                  whole (truncated-IsWritten last f) above refl
                  (encoder (as_append r) bytes encoded).0
                  (omega (arith, (encoder (as_append r) bytes encoded).1)) tt)
        ]
      ]
    ]

some_value : {a b : ℕ} → some a ≡ some b → a ≡ b
some_value e = cc

opened_from :
    (writer : Option ℕ) (opens : Bool) (bytes size total : ℕ)
    → IsAt writer total
    → size ≡ total
    → (elim writer [
      | some bytes_written ↦ some bytes_written
      | none ↦ if opens then some size else none
    ])
      ≡ some bytes
    → bytes ≡ total
opened_from (some at) opens bytes size total h same e = sym (some_value e) ∙ h
opened_from none true bytes size total h same e = sym (some_value e) ∙ same
opened_from none false bytes size total h same e = cc

opened_at :
    (outcomes : Outcomes) (bytes : ℕ) (last : Option ℕ) (f : RunFile)
    → outcomes.measures ≡ true
    → IsWritten last f
    → opened outcomes f ≡ some bytes
    → bytes ≡ total_size f.lines
opened_at outcomes bytes last f measured h e =
    opened_from f.writer outcomes.opens bytes (measured_size outcomes.measures f)
      (total_size f.lines) h.5 (rw measured (omega (arith, h.1))) e

room_left :
    (most bytes size : ℕ)
    → most < u64_max
    → size ≤ u64_max
    → rotates most bytes size ≡ false
    → bytes + size ≤ u64_max
room_left most bytes size h small fits = ground (arith, h, small, fits)

write_open-IsWritten :
    (encode : DiskLogRecord → Option ℕ) (most : ℕ) (outcomes : Outcomes) (bytes : ℕ)
    (r : DiskLogRecord) (last : Option ℕ) (f : RunFile)
    → IsEncoder encode
    → most < u64_max
    → IsWhole outcomes.write
    → IsNotAbove last (some r.seq)
    → bytes ≡ total_size f.lines
    → Fits (current_after none f.lines) r.op r.seq
    → IsWritten last f
    → IsWritten (some r.seq) (write_open encode most outcomes bytes r f)
write_open-IsWritten encode most outcomes bytes r last f encoder limit whole above at fits h =
    elim (Option-cases (encode r)) [
      | inl failed ↦ rw (failed, write_open) (later-IsWritten last (some r.seq) f above h)
      | inr (size, encoded) ↦ elim (Bool-cases (rotates most bytes size)) [
        | inl full ↦
            rw (encoded, write_open)
              (rw full
                (rotate-IsWritten encode outcomes size last r f encoder whole encoded above h))
        | inr room ↦
            rw (encoded, write_open)
              (rw room (
                write_record-IsWritten outcomes.write size bytes r last f whole h above at
                  (encoder r size encoded).0
                  (room_left most bytes size limit (encoder r size encoded).1 room) fits))
      ]
    ]

write-IsWritten :
    (encode : DiskLogRecord → Option ℕ) (most : ℕ) (outcomes : Outcomes) (r : DiskLogRecord)
    (last : Option ℕ) (f : RunFile)
    → IsEncoder encode
    → most < u64_max
    → IsWhole outcomes.write
    → outcomes.measures ≡ true
    → IsAfter last r.op r.seq
    → IsWritten last f
    → IsWritten (some r.seq) (write_disk_record_with_limit encode most outcomes r f)
unfolding write_disk_record_with_limit
write-IsWritten encode most outcomes r last f encoder limit whole measured after h =
    let above = after_above last r.op r.seq after in
    elim (Option-cases (opened outcomes f)) [
      | inl closed ↦
          rw (closed, write_disk_record_with_limit) (later-IsWritten last (some r.seq) f above h)
      | inr (bytes, open_at) ↦
          let at = opened_at outcomes bytes last f measured h open_at in
          rw (open_at, write_disk_record_with_limit)
            (write_open-IsWritten encode most outcomes bytes (corrected f.metadata r) last
              (record f { writer = some bytes }) encoder limit whole above at
              (corrected-Fits last (current_after none f.lines) f.metadata r h.3 h.4 after)
              (h.0, h.1, h.2, h.3, h.4, at, h.6))
    ]

write_all_lem :
    (encode : DiskLogRecord → Option ℕ) (stream : List (Outcomes × DiskLogRecord)) (last : Option ℕ)
    (f : RunFile)
    → IsEncoder encode
    → IsStream last stream
    → IsWritten last f
    → (later : Option ℕ) × IsWritten later (write_all encode stream f)
unfolding write_all write_disk_record
write_all_lem encode [] last f encoder h written_so_far = (last, written_so_far)
write_all_lem encode ((outcomes, r) ∷ rest) last f encoder h written_so_far =
    write_all_lem encode rest (some r.seq) _ encoder h.3 (
      write-IsWritten encode disk_run_file_max_bytes outcomes r last f encoder (omega arith) h.1 h.2
        h.0 written_so_far)

-- For an encoder whose lines are not empty and have 64-bit lengths, whatever records of a run are
-- written, as long as an append is numbered above all before it and a replacement not below, and
-- each write takes place in full or is rolled back, and the length of a file that is opened again
-- can be read (opening and truncating the file may fail, and records may be missing from the
-- queue): the file then is a log (an append has a greater number than all before it, a replacement
-- has the number of the line before it) of fewer than 2 ^ 64 bytes, which are the readable bytes
-- that the metadata tells the readers.
pub write_all-IsLog :
    (encode : DiskLogRecord → Option ℕ) (stream : List (Outcomes × DiskLogRecord))
    → IsEncoder encode
    → IsStream none stream
    → let f = write_all encode stream new_file in
      IsLog none f.lines
      × (total_size f.lines ≡ f.metadata.readable_len)
      × (total_size f.lines ≤ u64_max)
write_all-IsLog encode stream encoder h =
    let (later, done) =
      write_all_lem encode stream none new_file encoder h
        (tt, refl, refl, refl, tt, tt, omega arith) in
    (done.0, done.2, done.6)
