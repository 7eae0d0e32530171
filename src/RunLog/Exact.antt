-- ===== src/RunLog/Exact.antt =====
-- crates/micromux/src/model/runlog.rs: a read of a segment with the index of earlier reads.
use micromux.Prelude.{
  ℕ, ◌≤◌, ◌≡◌, refl, sym, ap, ◌∙◌, subst, List, [], ◌∷◌, ◌++◌, false, Option, none, some, ltb, ◌==◌,
  arith, if◌then◌else◌, keep, append-nil, All, Bool-cases, inl, inr, u64_max,
}
use micromux.LogBuffer.{LogLine}
use micromux.RunLog.{
  FileLine, unparsed, parsed, RunLogReadIndex, start_offset_for_read, reset_scan, reset_if_past_end,
}
use micromux.RunLog.Segment.{
  total_size, line_of, seek, scan, delivered, read_segment, read_run_log_segment,
}
use micromux.RunLog.Replay.{IsLog, replay}
use micromux.RunLog.Loop.{first_of, is_shown, scan_lem, IsWithin}
use micromux.RunLog.Split.{
  IsPassed, current_after, IsLog-append, seek-append, current_after-IsHidden, holds-IsHidden,
  replay-append,
}
use micromux.RunLog.Delivered.{
  unread, IsReadTo, delivered_split, delivered_behind, split_behind, IsLog-before,
}
use micromux.RunLog.Indexed.{IsCovered, IsIndexOf}
use micromux.RunLog.Cached.{IsCurrent, scan-IsIndexOf, total_size-append}
use micromux.RunLog.Start.{IsStart, tail-IsStart, cursor-IsStart}

pub reset_scan-IsIndexOf :
    (segment : List FileLine) (index : RunLogReadIndex) → IsIndexOf segment (reset_scan index)
unfolding reset_scan
reset_scan-IsIndexOf segment index = (([], segment, refl, refl, tt), tt)

-- An index of the segment is not past its end.
reset_if_past_end_lem :
    (segment : List FileLine) (index : RunLogReadIndex)
    → IsIndexOf segment index
    → reset_if_past_end (total_size segment) index ≡ index
unfolding reset_if_past_end
reset_if_past_end_lem segment index ((seen, rest, split, size, covered), known) =
    let within : ltb (total_size segment) index.scanned_to ≡ false =
      ground (arith, size, ap total_size split, total_size-append seen rest) in
    rw within

current_after-IsCurrent :
    (current : Option LogLine) (last : Option ℕ) (before : List FileLine)
    → IsCurrent current last
    → All (IsCovered last) before
    → IsCurrent (current_after current before) last
current_after-IsCurrent current last [] h covered = h
current_after-IsCurrent current last (unparsed n ∷ before) h covered =
    current_after-IsCurrent current last before h covered.1
current_after-IsCurrent current none (parsed n r ∷ before) h covered = absurd covered.0
current_after-IsCurrent current (some most) (parsed n r ∷ before) h covered =
    current_after-IsCurrent (some (line_of r)) (some most) before covered.0 covered.1

-- The loop from a start.
abbrev read_at :
    (fails_after tail after limit : Option ℕ) (segment : List FileLine) (start : ℕ)
    → RunLogReadIndex
    → List LogLine × RunLogReadIndex
read_at fails_after tail after limit segment start index =
    scan tail after limit (delivered fails_after (seek start segment)) start []
      (if start == 0 then reset_scan index else index)

seek_split :
    (segment before rest : List FileLine) (start : ℕ)
    → IsLog none segment
    → segment ≡ before ++ rest
    → total_size before ≡ start
    → seek start segment ≡ rest
seek_split segment before rest start log split size =
    ap (λ n. seek n segment) (sym size)
    ∙ ap (seek (total_size before)) split
    ∙ seek-append none before rest (subst (IsLog none) split log)

-- The lines that are read behind a start are a log.
got-IsLog :
    (fails_after : Option ℕ) (segment before rest : List FileLine)
    → IsLog none segment
    → segment ≡ before ++ rest
    → IsLog (current_after none before) (delivered fails_after rest)
got-IsLog fails_after segment before rest log split =
    IsLog-before (current_after none before) (delivered fails_after rest) (unread fails_after rest)
      (subst (IsLog (current_after none before)) (delivered_split fails_after rest)
        (IsLog-append none before rest (subst (IsLog none) split log)))

-- The index behind a read from the beginning of the file.
read_at-first :
    (fails_after tail after limit : Option ℕ) (segment : List FileLine) (start : ℕ)
    (index : RunLogReadIndex)
    → IsLog none segment
    → total_size segment ≤ u64_max
    → start ≡ 0
    → IsIndexOf segment (read_at fails_after tail after limit segment start index).1
unfolding seek
read_at-first fails_after tail after limit segment start index log small first =
    let split = delivered_split fails_after segment in
    subst (λ n. IsIndexOf segment (read_at fails_after tail after limit segment n index).1)
      (sym first)
      (scan-IsIndexOf tail after limit segment [] (delivered fails_after segment)
        (unread fails_after segment) 0 [] none (reset_scan index) split refl small
        (IsLog-before none (delivered fails_after segment) (unread fails_after segment)
          (subst (IsLog none) split log))
        tt tt (reset_scan-IsIndexOf segment index))

-- The index behind a read from a start.
read_at-IsIndexOf :
    (Q : FileLine → Type 0) (fails_after tail after limit : Option ℕ) (segment : List FileLine)
    (start : ℕ) (index : RunLogReadIndex)
    → IsLog none segment
    → total_size segment ≤ u64_max
    → IsIndexOf segment index
    → IsStart Q segment index.last_append_seq start
    → IsIndexOf segment (read_at fails_after tail after limit segment start index).1
read_at-IsIndexOf Q fails_after tail after limit segment start index log small known (inl first) =
    read_at-first fails_after tail after limit segment start index log small first
read_at-IsIndexOf Q fails_after tail after limit segment start index log small known
      (inr (before, rest, split, size, covered, all)) =
    let got = delivered fails_after rest in
    let left = unread fails_after rest in
    elim (Bool-cases (start == 0)) [
      | inl first ↦
          read_at-first fails_after tail after limit segment start index log small
            (ground (arith, first))
      | inr later ↦
          rw (later, seek_split segment before rest start log split size)
            (scan-IsIndexOf tail after limit segment before got left start []
              (current_after none before) index
              (split ∙ ap (◌++◌ before) (delivered_split fails_after rest)) (sym size) small
              (got-IsLog fails_after segment before rest log split)
              (current_after-IsCurrent none index.last_append_seq before tt covered) covered known)
    ]

IsWithin-nil : (limit : Option ℕ) → IsWithin limit []
IsWithin-nil none = tt
IsWithin-nil (some limit) = omega arith

-- The lines are those that some beginning of the file says, which is all of it or goes at least as
-- far as the reads did, those behind the cursor, at most `limit`.
abbrev pub IsReadOf : (fails_after after limit : Option ℕ) → List FileLine → List LogLine → Type 0
IsReadOf fails_after after limit segment lines =
    (got : List FileLine) × (rest : List FileLine) × (segment ≡ got ++ rest)
    × IsReadTo fails_after got rest
    × (lines ≡ first_of limit (keep (is_shown after) (replay none got)))

-- The lines of a read from the beginning of the file.
read_first :
    (fails_after after limit : Option ℕ) (segment : List FileLine) (index : RunLogReadIndex)
    → IsLog none segment
    → IsReadOf fails_after after limit segment
        (read_at fails_after none after limit segment 0 index).0
unfolding seek
read_first fails_after after limit segment index log =
    let split = delivered_split fails_after segment in
    (
      delivered fails_after segment,
      unread fails_after segment,
      split,
      delivered_behind fails_after [] segment,
      scan_lem after limit (delivered fails_after segment) 0 [] none (reset_scan index)
          (IsLog-before none (delivered fails_after segment) (unread fails_after segment)
            (subst (IsLog none) split log))
          (IsWithin-nil limit),
    )

-- The lines of a read from a line on, ahead of which all is behind the cursor.
read_later :
    (after limit : Option ℕ) (before got : List FileLine) (start : ℕ) (index : RunLogReadIndex)
    → All (IsPassed after) before
    → IsLog (current_after none before) got
    → (scan none after limit got start [] index).0
      ≡ first_of limit (keep (is_shown after) (replay none (before ++ got)))
read_later after limit before got start index all log =
    let current = current_after none before in
    let nothing = holds-IsHidden after current (current_after-IsHidden after none before tt all) in
    rw (replay-append after none before got tt all) (
      subst
        (λ shown.
          (scan none after limit got start shown index).0
          ≡ first_of limit (keep (is_shown after) (replay current got)))
        nothing
        (scan_lem after limit got start [] current index log
          (subst (IsWithin limit) (sym nothing) (IsWithin-nil limit))))

-- The lines of a read that passes over none ahead of the cursor.
read_at_lem :
    (fails_after after limit : Option ℕ) (segment : List FileLine) (start : ℕ)
    (index : RunLogReadIndex)
    → IsLog none segment
    → IsStart (IsPassed after) segment index.last_append_seq start
    → IsReadOf fails_after after limit segment
        (read_at fails_after none after limit segment start index).0
read_at_lem fails_after after limit segment start index log (inl first) =
    subst
      (λ n.
        IsReadOf fails_after after limit segment
          (read_at fails_after none after limit segment n index).0)
      (sym first) (read_first fails_after after limit segment index log)
read_at_lem fails_after after limit segment start index log
      (inr (before, rest, split, size, covered, all)) =
    (
      before ++ delivered fails_after rest,
      unread fails_after rest,
      split_behind fails_after segment before rest split,
      delivered_behind fails_after before rest,
      rw (seek_split segment before rest start log split size) (
          read_later after limit before (delivered fails_after rest) start _ all
            (got-IsLog fails_after segment before rest log split)),
    )

any_start :
    (fails_after tail after : Option ℕ) (segment : List FileLine) (index : RunLogReadIndex)
    → IsLog none segment
    → total_size segment ≤ u64_max
    → IsIndexOf segment index
    → (limit : Option ℕ)
    → IsIndexOf segment
        (read_at fails_after tail after limit segment
          (start_offset_for_read index tail after (total_size segment))
          index).1
any_start fails_after none after segment index log small known limit =
    read_at-IsIndexOf (IsPassed after) fails_after none after limit segment _ index log small known
      (cursor-IsStart segment after index log known)
any_start fails_after (some tail) after segment index log small known limit =
    read_at-IsIndexOf (λ l. Unit) fails_after (some tail) after limit segment _ index log small
      known (tail-IsStart segment tail after index log known)

-- Where a readable segment is a log (its lines are not empty, an append has a greater number than
-- all before it, and a replacement has the number of the line before it) of fewer than 2 ^ 64
-- bytes, and the index knows it: a read of any options, which may fail anywhere, leaves an index
-- that knows the segment.
pub read_segment-IsIndexOf :
    (segment : List FileLine) (fails_after tail after limit : Option ℕ) (index : RunLogReadIndex)
    → IsLog none segment
    → total_size segment ≤ u64_max
    → IsIndexOf segment index
    → IsIndexOf segment
        (read_segment (total_size segment) fails_after segment tail after limit index).1
unfolding read_segment
read_segment-IsIndexOf segment fails_after tail after limit index log small known =
    rw (reset_if_past_end_lem segment index known)
      (any_start fails_after tail after segment index log small known limit)

-- Where a readable segment is a log and the index knows a part of it, a read with a cursor and a
-- limit, which may fail anywhere, returns the lines of a beginning of it.
pub read_segment-IsReadOf :
    (segment : List FileLine) (fails_after after limit : Option ℕ) (index : RunLogReadIndex)
    → IsLog none segment
    → IsIndexOf segment index
    → IsReadOf fails_after after limit segment
        (read_segment (total_size segment) fails_after segment none after limit index).0
unfolding read_segment
read_segment-IsReadOf segment fails_after after limit index log known =
    rw (reset_if_past_end_lem segment index known) (
      read_at_lem fails_after after limit segment _ index log
        (cursor-IsStart segment after index log known))

-- Where a readable segment is a log (its lines are not empty, an append has a greater number than
-- all before it, and a replacement has the number of the line before it), and the index knows a
-- part of it: a read with a cursor and a limit returns the lines that the file says, those behind
-- the cursor, the first `limit` of them, each as it was last replaced. So it returns what a read
-- with an empty index does.
pub read_run_log_segment_lem :
    (segment : List FileLine) (after limit : Option ℕ) (index : RunLogReadIndex)
    → IsLog none segment
    → IsIndexOf segment index
    → (read_run_log_segment segment none after limit index).0
      ≡ first_of limit (keep (is_shown after) (replay none segment))
unfolding read_run_log_segment
read_run_log_segment_lem segment after limit index log known =
    let (got, rest, split, all, e) =
      read_segment-IsReadOf segment none after limit index log known in
    let whole : got ≡ segment = sym (split ∙ ap (◌++◌ got) all ∙ append-nil got) in
    e ∙ ap (λ s. first_of limit (keep (is_shown after) (replay none s))) whole
