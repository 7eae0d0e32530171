-- ===== src/RunLog/Cached.antt =====
-- crates/micromux/src/model/runlog.rs: the loop of a read keeps what the index knows.
use micromux.Prelude.{
  ℕ, ◌+◌, ◌≤◌, ◌≡◌, refl, sym, ap, ◌∙◌, subst, List, [], ◌∷◌, ◌++◌, not, ◌&&◌, Option, none, some,
  arith, if◌then◌else◌, All, Bool-cases, inl, inr, saturating_add, saturating_add_lem, u64_max,
  append_assoc,
}
use micromux.LogBuffer.{LogLine}
use micromux.Store.{DiskLogOp, DiskLogRecord}
use micromux.RunLog.{
  FileLine, unparsed, parsed, size_of, RunLogReadIndex, observe_append, mark_scanned_to,
}
use micromux.RunLog.Segment.{
  total_size, scan, line_of, is_append, is_behind, observed, is_done, take_record,
}
use micromux.RunLog.Replay.{Fits, IsLog}
use micromux.RunLog.Loop.{op-cases}
use micromux.RunLog.Indexed.{
  IsCovered, IsAtMost, IsIndexOf, All-snoc, All-map, raised, IsCovered-raised, IsAtMost-self,
  observe_append-IsIndexOf, mark_scanned_to-IsIndexOf,
}

abbrev pub IsCurrent : Option LogLine → (last : Option ℕ) → Type 0
IsCurrent none last = Unit
IsCurrent (some k) last = IsAtMost k.seq last

pub total_size-append :
    (before rest : List FileLine)
    → total_size (before ++ rest) ≡ total_size before + total_size rest
total_size-append [] rest = omega arith
total_size-append (l ∷ before) rest = omega (arith, total_size-append before rest)

total_size-snoc :
    (before : List FileLine) (l : FileLine)
    → total_size (before ++ l ∷ []) ≡ total_size before + size_of l
total_size-snoc before l = omega (arith, total_size-append before (l ∷ []))

next_offset :
    (segment before rest : List FileLine) (l : FileLine)
    → segment ≡ before ++ l ∷ rest
    → total_size segment ≤ u64_max
    → saturating_add (total_size before) (size_of l) ≡ total_size (before ++ l ∷ [])
next_offset segment before rest l split small =
    saturating_add_lem (total_size before) (size_of l)
      (omega (arith, small, ap total_size split, total_size-append before (l ∷ rest)))
    ∙ sym (total_size-snoc before l)

split_snoc :
    (segment before rest : List FileLine) (l : FileLine)
    → segment ≡ before ++ l ∷ rest
    → segment ≡ (before ++ l ∷ []) ++ rest
split_snoc segment before rest l split = split ∙ sym (append_assoc before (l ∷ []) rest)

replaced_covered :
    (current : Option LogLine) (seq : ℕ) (last : Option ℕ)
    → Fits current DiskLogOp.replace_last seq
    → IsCurrent current last
    → IsAtMost seq last
replaced_covered none seq last h covered = absurd h
replaced_covered (some k) seq last h covered = subst (λ n. IsAtMost n last) h covered

IsCovered-parsed :
    (size : ℕ) (r : DiskLogRecord) (last : Option ℕ)
    → IsAtMost r.seq last
    → IsCovered last (parsed size r)
IsCovered-parsed size r none h = h
IsCovered-parsed size r (some most) h = h

-- What the index knows behind a record.
abbrev pub IsKnown : (segment before : List FileLine) → (seq : ℕ) → RunLogReadIndex → Type 0
IsKnown segment before seq index =
    IsIndexOf segment index
    × All (IsCovered index.last_append_seq) before
    × IsAtMost seq index.last_append_seq

observed-IsKnown :
    (segment before rest : List FileLine) (size next : ℕ) (r : DiskLogRecord)
    (current : Option LogLine) (index : RunLogReadIndex)
    → segment ≡ before ++ parsed size r ∷ rest
    → next ≡ total_size (before ++ parsed size r ∷ [])
    → Fits current r.op r.seq
    → IsCurrent current index.last_append_seq
    → All (IsCovered index.last_append_seq) before
    → IsIndexOf segment index
    → IsKnown segment
        (before ++ parsed size r ∷ [])
        r.seq
        (observed r (total_size before) (mark_scanned_to next index))
unfolding observe_append mark_scanned_to
observed-IsKnown segment before rest size next r current index split e fits covered seen known =
    elim (op-cases r.op) [
      | inl appended ↦
          let last = raised r.seq index.last_append_seq in
          let all : All (IsCovered last) (before ++ parsed size r ∷ []) =
            All-snoc (IsCovered last) before (parsed size r)
              (All-map (IsCovered index.last_append_seq) (IsCovered last) before
                (IsCovered-raised r.seq index.last_append_seq) seen)
              (IsAtMost-self r.seq index.last_append_seq) in
          let later =
            observe_append-IsIndexOf segment r.seq (total_size before) index
              (before, rest, size, r, split, appended, refl, refl) known in
          rw (ap is_append appended, e)
            (
              mark_scanned_to-IsIndexOf segment (before ++ parsed size r ∷ []) rest
                  (observe_append r.seq (total_size before) index)
                  (split_snoc segment before rest (parsed size r) split) all later,
              all,
              IsAtMost-self r.seq index.last_append_seq,
            )
      | inr replaced ↦
          let own =
            replaced_covered current r.seq index.last_append_seq
              (subst (λ op. Fits current op r.seq) replaced fits) covered in
          let all : All (IsCovered index.last_append_seq) (before ++ parsed size r ∷ []) =
            All-snoc (IsCovered index.last_append_seq) before (parsed size r) seen
              (IsCovered-parsed size r index.last_append_seq own) in
          rw (ap is_append replaced, e)
            (
              mark_scanned_to-IsIndexOf segment (before ++ parsed size r ∷ []) rest index
                  (split_snoc segment before rest (parsed size r) split) all known,
              all,
              own,
            )
    ]

-- Whatever is read of the file, in any order of the options, the index knows the file behind the loop.
pub scan-IsIndexOf :
    (tail after limit : Option ℕ) (segment before lines unread : List FileLine) (offset : ℕ)
    (shown : List LogLine) (current : Option LogLine) (index : RunLogReadIndex)
    → segment ≡ before ++ (lines ++ unread)
    → offset ≡ total_size before
    → total_size segment ≤ u64_max
    → IsLog current lines
    → IsCurrent current index.last_append_seq
    → All (IsCovered index.last_append_seq) before
    → IsIndexOf segment index
    → IsIndexOf segment (scan tail after limit lines offset shown index).1
unfolding scan mark_scanned_to
scan-IsIndexOf tail after limit segment before [] unread offset shown current index split at small
      log covered seen known =
    known
scan-IsIndexOf tail after limit segment before (unparsed size ∷ rest) unread offset shown current
      index split at small log covered seen known =
    let l = unparsed size in
    let next =
      ap (λ n. saturating_add n size) at
      ∙ next_offset segment before (rest ++ unread) l split small in
    let all = All-snoc (IsCovered index.last_append_seq) before l seen tt in
    let more = split_snoc segment before (rest ++ unread) l split in
    let marked =
      subst (λ n. IsIndexOf segment (mark_scanned_to n index)) (sym next)
        (mark_scanned_to-IsIndexOf segment (before ++ l ∷ []) (rest ++ unread) index more all
          known) in
    scan-IsIndexOf tail after limit segment (before ++ l ∷ []) rest unread
      (saturating_add offset size) shown current
      (mark_scanned_to (saturating_add offset size) index) more next small log.1 covered all marked
scan-IsIndexOf tail after limit segment before (parsed size r ∷ rest) unread offset shown current
      index split at small log covered seen known =
    let l = parsed size r in
    let next =
      ap (λ n. saturating_add n size) at
      ∙ next_offset segment before (rest ++ unread) l split small in
    let scanned = observed r offset (mark_scanned_to (saturating_add offset size) index) in
    let more = split_snoc segment before (rest ++ unread) l split in
    let (later, all, own) =
      subst
        (λ o.
          IsKnown segment (before ++ l ∷ []) r.seq
            (observed r o (mark_scanned_to (saturating_add offset size) index)))
        (sym at)
        (observed-IsKnown segment before (rest ++ unread) size (saturating_add offset size) r
          current index split next log.1 covered seen known) in
    elim (Bool-cases (not (is_behind after r.seq) && is_done tail limit r shown)) [
      | inl stop ↦ rw stop later
      | inr go ↦ rw go (
          scan-IsIndexOf tail after limit segment (before ++ l ∷ []) rest unread
            (saturating_add offset size)
            (if is_behind after r.seq then shown else take_record tail limit r shown)
            (some (line_of r)) scanned more next small log.2 own all later)
    ]
