-- ===== src/RunLog/Delivered.antt =====
-- crates/micromux/src/model/runlog.rs: the lines that are read when a read may fail.
use micromux.Prelude.{
  ℕ, zero, suc, ◌≤◌, ◌≡◌, refl, sym, ap, ◌∙◌, List, [], ◌∷◌, ◌++◌, Option, none, some, arith,
  length, length-append, append_assoc, append-nil, drop, inl, inr, ◌⊎◌,
}
use micromux.LogBuffer.{LogLine}
use micromux.Store.Readers.{take}
use micromux.RunLog.{FileLine, unparsed, parsed}
use micromux.RunLog.Segment.{line_of, delivered}
use micromux.RunLog.Replay.{IsLog}

-- The lines behind a read that fails.
abbrev pub unread : (fails_after : Option ℕ) → List FileLine → List FileLine
unread none lines = []
unread (some n) lines = drop n lines

-- All is read, or at least as many lines as are read before one fails.
abbrev pub IsReadTo : (fails_after : Option ℕ) → (got rest : List FileLine) → Type 0
IsReadTo none got rest = rest ≡ []
IsReadTo (some n) got rest = (rest ≡ []) ⊎ (n ≤ length got)

taken_split : (n : ℕ) (lines : List FileLine) → lines ≡ take n lines ++ drop n lines
taken_split zero lines = refl
taken_split (suc n) [] = refl
taken_split (suc n) (l ∷ lines) = ap (◌∷◌ l) (taken_split n lines)

pub delivered_split :
    (fails_after : Option ℕ) (lines : List FileLine)
    → lines ≡ delivered fails_after lines ++ unread fails_after lines
delivered_split none lines = sym (append-nil lines)
delivered_split (some n) lines = taken_split n lines

take-IsReadTo : (n : ℕ) (lines : List FileLine) → IsReadTo (some n) (take n lines) (drop n lines)
take-IsReadTo zero lines = inr (omega arith)
take-IsReadTo (suc n) [] = inl refl
take-IsReadTo (suc n) (l ∷ lines) = elim (take-IsReadTo n lines) [
  | inl e ↦ inl e
  | inr h ↦ inr (omega (arith, h))
]

pub delivered_behind :
    (fails_after : Option ℕ) (before lines : List FileLine)
    → IsReadTo fails_after (before ++ delivered fails_after lines) (unread fails_after lines)
delivered_behind none before lines = refl
delivered_behind (some n) before lines = elim (take-IsReadTo n lines) [
  | inl e ↦ inl e
  | inr h ↦ inr (omega (arith, h, length-append before (take n lines)))
]

-- A file from some line on, split where a read fails.
pub split_behind :
    (fails_after : Option ℕ) (segment before lines : List FileLine)
    → segment ≡ before ++ lines
    → segment ≡ (before ++ delivered fails_after lines) ++ unread fails_after lines
split_behind fails_after segment before lines split =
    split
    ∙ ap (◌++◌ before) (delivered_split fails_after lines)
    ∙ sym (append_assoc before (delivered fails_after lines) (unread fails_after lines))

pub IsLog-before :
    (current : Option LogLine) (before rest : List FileLine)
    → IsLog current (before ++ rest)
    → IsLog current before
IsLog-before current [] rest log = tt
IsLog-before current (unparsed size ∷ before) rest log =
    (log.0, IsLog-before current before rest log.1)
IsLog-before current (parsed size r ∷ before) rest log =
    (log.0, log.1, IsLog-before (some (line_of r)) before rest log.2)
