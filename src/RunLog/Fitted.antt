-- ===== src/RunLog/Fitted.antt =====
-- crates/micromux/src/model/disk.rs: a record written at the end of the file of a run.
use micromux.Prelude.{
  ℕ, ◌+◌, ◌≤◌, ◌<◌, ◌≡◌, refl, sym, subst, List, [], ◌∷◌, ◌++◌, true, not, ◌&&◌, Option, none, some,
  ◌==◌, arith, if◌then◌else◌, Bool-cases, inl, inr, u64_max, saturating_add, saturating_add_lem,
}
use micromux.LogBuffer.{LogLine}
use micromux.Store.{DiskLogOp, DiskLogRecord}
use micromux.Store.Readers.{DiskRunMetadata}
use micromux.Store.Entry.{same_seq}
use micromux.RunLog.{FileLine, unparsed, parsed}
use micromux.RunLog.Segment.{total_size, line_of, is_append}
use micromux.RunLog.Disk.{
  RunFile, Outcomes, WriteOutcome, written, rolled_back, cut_off, observe, write_record, corrected,
}
use micromux.RunLog.Replay.{IsLog, Fits}
use micromux.RunLog.Split.{current_after}
use micromux.RunLog.Cached.{total_size-append}

-- The numbers of a run's records: an append is above all before it, a replacement is not below.
abbrev pub IsAfter : (last : Option ℕ) → DiskLogOp → (seq : ℕ) → Type 0
IsAfter none op seq = Unit
IsAfter (some last) DiskLogOp.append seq = last < seq
IsAfter (some last) DiskLogOp.replace_last seq = last ≤ seq

-- A write takes place in full or not at all.
abbrev pub IsWhole : WriteOutcome → Type 0
IsWhole written = Unit
IsWhole rolled_back = Unit
IsWhole (cut_off bytes) = ⊥

abbrev pub IsStream : (last : Option ℕ) → List (Outcomes × DiskLogRecord) → Type 0
IsStream last [] = Unit
IsStream last ((outcomes, r) ∷ rest) =
    IsAfter last r.op r.seq
    × IsWhole outcomes.write
    × (outcomes.measures ≡ true)
    × IsStream (some r.seq) rest

-- A record's line is not empty, and its length is a 64-bit number.
abbrev pub IsEncoder : (DiskLogRecord → Option ℕ) → Type 0
IsEncoder encode = (r : DiskLogRecord) (n : ℕ) → encode r ≡ some n → (1 ≤ n) × (n ≤ u64_max)

abbrev pub seq_of : Option LogLine → Option ℕ
seq_of none = none
seq_of (some k) = some k.seq

abbrev pub IsNotAbove : (last most : Option ℕ) → Type 0
IsNotAbove none most = Unit
IsNotAbove (some seq) none = ⊥
IsNotAbove (some seq) (some most) = seq ≤ most

abbrev pub IsAt : Option ℕ → ℕ → Type 0
IsAt none size = Unit
IsAt (some bytes_written) size = bytes_written ≡ size

-- The file is a log of at most 2 ^ 64 - 1 bytes with no unfinished line, its metadata has its
-- length and its last number, which is not above the last one that was to be written, and a writer
-- stands at its end.
abbrev pub IsWritten : (last : Option ℕ) → RunFile → Type 0
IsWritten last f =
    IsLog none f.lines
    × (f.partial ≡ 0)
    × (total_size f.lines ≡ f.metadata.readable_len)
    × (seq_of (current_after none f.lines) ≡ f.metadata.last_seq)
    × IsNotAbove f.metadata.last_seq last
    × IsAt f.writer (total_size f.lines)
    × (total_size f.lines ≤ u64_max)

IsLog-snoc :
    (current : Option LogLine) (lines : List FileLine) (size : ℕ) (r : DiskLogRecord)
    → IsLog current lines
    → 1 ≤ size
    → Fits (current_after current lines) r.op r.seq
    → IsLog current (lines ++ parsed size r ∷ [])
IsLog-snoc current [] size r log pos fits = (pos, fits, tt)
IsLog-snoc current (unparsed n ∷ lines) size r log pos fits =
    (log.0, IsLog-snoc current lines size r log.1 pos fits)
IsLog-snoc current (parsed n q ∷ lines) size r log pos fits =
    (log.0, log.1, IsLog-snoc (some (line_of q)) lines size r log.2 pos fits)

current_after-snoc :
    (current : Option LogLine) (lines : List FileLine) (size : ℕ) (r : DiskLogRecord)
    → current_after current (lines ++ parsed size r ∷ []) ≡ some (line_of r)
current_after-snoc current [] size r = refl
current_after-snoc current (unparsed n ∷ lines) size r = current_after-snoc current lines size r
current_after-snoc current (parsed n q ∷ lines) size r =
    current_after-snoc (some (line_of q)) lines size r

observe-last_seq :
    (op : DiskLogOp) (seq len : ℕ) (m : DiskRunMetadata)
    → (observe op seq len m).last_seq ≡ some seq
unfolding observe
observe-last_seq DiskLogOp.append seq len m = refl
observe-last_seq DiskLogOp.replace_last seq len m = refl

observe-readable_len :
    (op : DiskLogOp) (seq len : ℕ) (m : DiskRunMetadata) → (observe op seq len m).readable_len ≡ len
unfolding observe
observe-readable_len DiskLogOp.append seq len m = refl
observe-readable_len DiskLogOp.replace_last seq len m = refl

pub not_above : (a b c : Option ℕ) → IsNotAbove a b → IsNotAbove b c → IsNotAbove a c
not_above none b c h k = tt
not_above (some a) none c h k = absurd h
not_above (some a) (some b) none h k = absurd k
not_above (some a) (some b) (some c) h k = omega arith

-- A record that fits, written at the end of the file.
pub write_record-IsWritten :
    (outcome : WriteOutcome) (size bytes : ℕ) (r : DiskLogRecord) (last : Option ℕ) (f : RunFile)
    → IsWhole outcome
    → IsWritten last f
    → IsNotAbove last (some r.seq)
    → bytes ≡ total_size f.lines
    → 1 ≤ size
    → bytes + size ≤ u64_max
    → Fits (current_after none f.lines) r.op r.seq
    → IsWritten (some r.seq) (write_record outcome size bytes r f)
unfolding write_record
write_record-IsWritten (cut_off n) size bytes r last f whole h above at pos small fits =
    absurd whole
write_record-IsWritten rolled_back size bytes r last f whole h above at pos small fits =
    (h.0, h.1, h.2, h.3, not_above f.metadata.last_seq last (some r.seq) h.4 above, tt, h.6)
write_record-IsWritten written size bytes r last f whole h above at pos small fits =
    let whole_line : (f.partial == 0) ≡ true = ground (arith, h.1) in
    let sum : saturating_add bytes size ≡ bytes + size = saturating_add_lem bytes size small in
    let total : total_size (f.lines ++ parsed size r ∷ []) ≡ bytes + size =
      omega (arith, at, total_size-append f.lines (parsed size r ∷ [])) in
    rw
      (
        whole_line,
        observe-last_seq r.op r.seq (saturating_add bytes size) f.metadata,
        observe-readable_len r.op r.seq (saturating_add bytes size) f.metadata,
        sum,
        total,
        current_after-snoc none f.lines size r,
      )
      (IsLog-snoc none f.lines size r h.0 pos fits, refl, refl, refl, omega arith, refl, small)

Fits-corrected_op :
    (current : Option LogLine) (last : Option ℕ) (op : DiskLogOp) (seq : ℕ)
    → IsNotAbove (seq_of current) last
    → IsAfter last op seq
    → Fits current
        (if not (is_append op) && not (same_seq (seq_of current) (some seq))
          then DiskLogOp.append
          else op)
        seq
Fits-corrected_op none last DiskLogOp.append seq above after = tt
Fits-corrected_op none last DiskLogOp.replace_last seq above after = tt
Fits-corrected_op (some k) none op seq above after = absurd above
Fits-corrected_op (some k) (some last) DiskLogOp.append seq above after = omega arith
Fits-corrected_op (some k) (some last) DiskLogOp.replace_last seq above after =
    elim (Bool-cases (k.seq == seq)) [
      | inl same ↦ rw same (ground (arith, same))
      | inr other ↦ rw other (ground (arith, other, above, after))
    ]

-- A record behind all that was to be written fits, once it is corrected.
pub corrected-Fits :
    (last : Option ℕ) (current : Option LogLine) (m : DiskRunMetadata) (r : DiskLogRecord)
    → seq_of current ≡ m.last_seq
    → IsNotAbove m.last_seq last
    → IsAfter last r.op r.seq
    → Fits current (corrected m r).op (corrected m r).seq
corrected-Fits last current m r same above after =
    subst
      (λ o.
        Fits current
          (if not (is_append r.op) && not (same_seq o (some r.seq)) then DiskLogOp.append else r.op)
          r.seq)
      same
      (Fits-corrected_op current last r.op r.seq (subst (λ o. IsNotAbove o last) (sym same) above)
        after)

pub after_above :
    (last : Option ℕ) (op : DiskLogOp) (seq : ℕ) → IsAfter last op seq → IsNotAbove last (some seq)
after_above none op seq h = tt
after_above (some last) DiskLogOp.append seq h = omega arith
after_above (some last) DiskLogOp.replace_last seq h = omega arith

pub later-IsWritten :
    (last later : Option ℕ) (f : RunFile)
    → IsNotAbove last later
    → IsWritten last f
    → IsWritten later f
later-IsWritten last later f above h =
    (h.0, h.1, h.2, h.3, not_above f.metadata.last_seq last later h.4 above, h.5, h.6)
