-- ===== src/RunLog/Split.antt =====
-- crates/micromux/src/model/runlog.rs: a file read from the beginning of a record on.
use micromux.Prelude.{
  ℕ, suc, ◌+◌, ◌-◌, ◌≤◌, ◌<◌, ◌≡◌, refl, ◌∙◌, subst, List, [], ◌∷◌, ◌++◌, true, Option, none, some,
  leb, arith, keep, or_cons, All, Bool-cases, inl, inr,
}
use micromux.LogBuffer.{LogLine}
use micromux.Store.{DiskLogOp, DiskLogRecord}
use micromux.RunLog.{FileLine, unparsed, parsed, size_of}
use micromux.RunLog.Segment.{total_size, seek, line_of, is_append, is_behind}
use micromux.RunLog.Replay.{replay, Fits, IsLog}
use micromux.RunLog.Loop.{is_shown, holds}

-- The record of a line, if it is one, has at most the number.
abbrev pub IsUpTo : ℕ → FileLine → Type 0
IsUpTo most (unparsed size) = Unit
IsUpTo most (parsed size r) = r.seq ≤ most

-- The line of the last record.
abbrev pub current_after : Option LogLine → List FileLine → Option LogLine
current_after current [] = current
current_after current (unparsed size ∷ rest) = current_after current rest
current_after current (parsed size r ∷ rest) = current_after (some (line_of r)) rest

pub IsLog-append :
    (current : Option LogLine) (before rest : List FileLine)
    → IsLog current (before ++ rest)
    → IsLog (current_after current before) rest
IsLog-append current [] rest log = log
IsLog-append current (unparsed size ∷ before) rest log = IsLog-append current before rest log.1
IsLog-append current (parsed size r ∷ before) rest log =
    IsLog-append (some (line_of r)) before rest log.2

-- Past a line.
seek_past :
    (l : FileLine) (rest : List FileLine) (more : ℕ)
    → 1 ≤ size_of l
    → seek (size_of l + more) (l ∷ rest) ≡ seek more rest
unfolding seek
seek_past l rest more h =
    let n = size_of l + more - 1 in
    let e : size_of l + more ≡ suc n = omega arith in
    let past : leb (size_of l) (suc n) ≡ true = ground arith in
    let left : suc n - size_of l ≡ more = omega arith in rw (e, past, left)

pub seek-append :
    (current : Option LogLine) (before rest : List FileLine)
    → IsLog current (before ++ rest)
    → seek (total_size before) (before ++ rest) ≡ rest
unfolding seek
seek-append current [] rest log = refl
seek-append current (unparsed size ∷ before) rest log =
    seek_past (unparsed size) (before ++ rest) (total_size before) log.0
    ∙ seek-append current before rest log.1
seek-append current (parsed size r ∷ before) rest log =
    seek_past (parsed size r) (before ++ rest) (total_size before) log.0
    ∙ seek-append (some (line_of r)) before rest log.2

-- The current line is behind the cursor, if there is one.
abbrev pub IsHidden : (after : Option ℕ) → Option LogLine → Type 0
IsHidden after none = Unit
IsHidden after (some k) = is_behind after k.seq ≡ true

abbrev pub IsPassed : (after : Option ℕ) → FileLine → Type 0
IsPassed after (unparsed size) = Unit
IsPassed after (parsed size r) = is_behind after r.seq ≡ true

pub current_after-IsHidden :
    (after : Option ℕ) (current : Option LogLine) (before : List FileLine)
    → IsHidden after current
    → All (IsPassed after) before
    → IsHidden after (current_after current before)
current_after-IsHidden after current [] hidden passed = hidden
current_after-IsHidden after current (unparsed size ∷ before) hidden passed =
    current_after-IsHidden after current before hidden passed.1
current_after-IsHidden after current (parsed size r ∷ before) hidden passed =
    current_after-IsHidden after (some (line_of r)) before passed.0 passed.1

pub holds-IsHidden :
    (after : Option ℕ) (current : Option LogLine)
    → IsHidden after current
    → holds after [] current ≡ []
holds-IsHidden after none hidden = refl
holds-IsHidden after (some k) hidden = rw hidden

keep-or_cons :
    (after : Option ℕ) (current : Option LogLine) (lines : List LogLine)
    → IsHidden after current
    → keep (is_shown after) (or_cons current lines) ≡ keep (is_shown after) lines
keep-or_cons after none lines hidden = refl
keep-or_cons after (some k) lines hidden = rw hidden

-- What is behind the cursor need not be read.
pub replay-append :
    (after : Option ℕ) (current : Option LogLine) (before rest : List FileLine)
    → IsHidden after current
    → All (IsPassed after) before
    → keep (is_shown after) (replay current (before ++ rest))
      ≡ keep (is_shown after) (replay (current_after current before) rest)
unfolding replay
replay-append after current [] rest hidden passed = refl
replay-append after current (unparsed size ∷ before) rest hidden passed =
    replay-append after current before rest hidden passed.1
replay-append after current (parsed size r ∷ before) rest hidden passed =
    let further = replay-append after (some (line_of r)) before rest passed.0 passed.1 in
    elim (Bool-cases (is_append r.op)) [
      | inl appended ↦ rw (appended, keep-or_cons after current _ hidden) further
      | inr replaced ↦ rw replaced further
    ]

-- A line that fits is not below the current one.
Fits-le : (k : LogLine) (op : DiskLogOp) (seq : ℕ) → Fits (some k) op seq → k.seq ≤ seq
Fits-le k DiskLogOp.append seq h = omega arith
Fits-le k DiskLogOp.replace_last seq h = omega arith

-- The current line is below each append that follows.
append-above :
    (k : LogLine) (before rest : List FileLine) (size : ℕ) (r : DiskLogRecord)
    → r.op ≡ DiskLogOp.append
    → IsLog (some k) (before ++ parsed size r ∷ rest)
    → k.seq < r.seq
append-above k [] rest size r e log = subst (λ op. Fits (some k) op r.seq) e log.1
append-above k (unparsed n ∷ before) rest size r e log = append-above k before rest size r e log.1
append-above k (parsed n q ∷ before) rest size r e log =
    omega (arith, Fits-le k q.op q.seq log.1, append-above (line_of q) before rest size r e log.2)

-- All that stands before an append has a smaller number.
pub before_append :
    (current : Option LogLine) (before rest : List FileLine) (size : ℕ) (r : DiskLogRecord)
    → r.op ≡ DiskLogOp.append
    → IsLog current (before ++ parsed size r ∷ rest)
    → All (IsUpTo r.seq) before
before_append current [] rest size r e log = tt
before_append current (unparsed n ∷ before) rest size r e log =
    (tt, before_append current before rest size r e log.1)
before_append current (parsed n q ∷ before) rest size r e log = (
  omega (arith, append-above (line_of q) before rest size r e log.2),
  before_append (some (line_of q)) before rest size r e log.2,
)

pub IsUpTo-IsPassed :
    (after most : ℕ) (before : List FileLine)
    → most ≤ after
    → All (IsUpTo most) before
    → All (IsPassed (some after)) before
IsUpTo-IsPassed after most [] le h = tt
IsUpTo-IsPassed after most (unparsed n ∷ before) le h =
    (tt, IsUpTo-IsPassed after most before le h.1)
IsUpTo-IsPassed after most (parsed n q ∷ before) le h =
    (ground (arith, h.0, le), IsUpTo-IsPassed after most before le h.1)
