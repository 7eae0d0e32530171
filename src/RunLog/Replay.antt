-- ===== src/RunLog/Replay.antt =====
-- crates/micromux/src/model/runlog.rs: what the lines of a run's file say.
use micromux.Prelude.{ℕ, ◌≤◌, ◌<◌, ◌≡◌, List, [], ◌∷◌, Option, none, some, if◌then◌else◌, or_cons}
use micromux.LogBuffer.{LogLine}
use micromux.Store.{DiskLogOp}
use micromux.RunLog.{FileLine, unparsed, parsed}
use micromux.RunLog.Segment.{line_of, is_append}

-- What a file says: a line holds from its append on, and a replacement stands in its place.
unfoldable pub replay : (current : Option LogLine) → List FileLine → List LogLine
replay current [] = or_cons current []
replay current (unparsed size ∷ rest) = replay current rest
replay current (parsed size r ∷ rest) =
    let further = replay (some (line_of r)) rest in
    if is_append r.op then or_cons current further else further

-- A record fits behind the current line: an append has a greater number, a replacement has its own.
abbrev pub Fits : (current : Option LogLine) → DiskLogOp → (seq : ℕ) → Type 0
Fits none DiskLogOp.append seq = Unit
Fits none DiskLogOp.replace_last seq = ⊥
Fits (some k) DiskLogOp.append seq = k.seq < seq
Fits (some k) DiskLogOp.replace_last seq = k.seq ≡ seq

-- The records fit in their order, and no line is empty.
abbrev pub IsLog : (current : Option LogLine) → List FileLine → Type 0
IsLog current [] = Unit
IsLog current (unparsed size ∷ rest) = (1 ≤ size) × IsLog current rest
IsLog current (parsed size r ∷ rest) =
    (1 ≤ size) × Fits current r.op r.seq × IsLog (some (line_of r)) rest
