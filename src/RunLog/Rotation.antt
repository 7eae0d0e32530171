-- ===== src/RunLog/Rotation.antt =====
-- crates/micromux/src/model/runlog.rs: a read of the file of a run while it may be rotated.
use micromux.Prelude.{ℕ, ◌≤◌, ◌<◌, ◌≡◌, List, true, false, ◌&&◌, Option, none, ◌==◌, u64_max}
use micromux.LogBuffer.{LogLine}
use micromux.RunLog.{RunLogReadIndex}
use micromux.RunLog.Segment.{total_size}
use micromux.RunLog.Consistent.{Attempt, ReadResult, value, unreadable, rotating}
use micromux.RunLog.Replay.{IsLog}
use micromux.RunLog.Indexed.{IsIndexOf}
use micromux.RunLog.Exact.{IsReadOf}

abbrev pub IsStable : Attempt → Type 0
IsStable a = (a.current_epoch == a.segment_epoch) ≡ true

-- Where the file is not rotated meanwhile, it is a log of the length that the metadata gives.
abbrev pub IsFile : Attempt → Type 0
IsFile a =
    IsStable a
    → IsLog none a.readable
      × (total_size a.readable ≤ u64_max)
      × (a.readable_len ≡ total_size a.readable)

-- An index knows the file if it is of its segment, and that is not rotated meanwhile.
abbrev pub IsIndexFor : Attempt → RunLogReadIndex → Type 0
IsIndexFor a index = IsStable a → index.segment_epoch ≡ a.segment_epoch → IsIndexOf a.readable index

-- Lines are those of one attempt during which the segment was not rotated, and the index is left
-- knowing that segment; an attempt that could not open the file or seek in it gives none; and it is
-- an error only where each attempt saw a rotation.
abbrev pub IsOutcome :
    (meet : ℕ → Attempt) (after limit : Option ℕ) (first end : ℕ)
    → ReadResult (List LogLine) × RunLogReadIndex
    → Type 0
IsOutcome meet after limit first end (value lines, index) =
    (k : ℕ) × (first ≤ k)
    × (k < end)
    × IsStable (meet k)
    × IsReadOf (meet k).fails_after after limit (meet k).readable lines
    × (index.segment_epoch ≡ (meet k).segment_epoch)
    × IsIndexOf (meet k).readable index
IsOutcome meet after limit first end (unreadable, index) =
    (k : ℕ) × (first ≤ k) × (k < end) × ((meet k).opens && (meet k).seeks ≡ false)
IsOutcome meet after limit first end (rotating, index) =
    (k : ℕ) → first ≤ k → k < end → ((meet k).current_epoch == (meet k).segment_epoch) ≡ false
