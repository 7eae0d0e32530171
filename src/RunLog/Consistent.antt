-- ===== src/RunLog/Consistent.antt =====
-- crates/micromux/src/model/runlog.rs: `read_consistent_segment`, which rejects a read during which
-- the file was rotated.
use micromux.Prelude.{ℕ, zero, suc, not, List, Bool, Option, none, some, ◌==◌, if◌then◌else◌}
use micromux.LogBuffer.{LogLine}
use micromux.RunLog.{FileLine, RunLogReadIndex, reset_scan, reset_for_segment}
use micromux.RunLog.Segment.{read_segment}

-- What an attempt meets: the epoch and the length that the metadata gives before it, the lines of
-- the file, if it can be opened and read from the offset, after how many lines a read of it fails,
-- if one does, and the epoch behind it.
pub record Attempt : Type 0 where
  pub segment_epoch : ℕ
  pub readable_len : ℕ
  pub readable : List FileLine
  pub opens : Bool
  pub seeks : Bool
  pub fails_after : Option ℕ
  pub current_epoch : ℕ

pub data ReadResult {ℓ} (A : Type ℓ) : Type ℓ where
  value : A → ReadResult A
  unreadable : ReadResult A
  -- `LogRunReadError::Rotating`
  rotating : ReadResult A

abbrev pub max_stable_segment_read_attempts : ℕ
max_stable_segment_read_attempts = 3

-- The loop: `left` attempts are left, and the next one is `number`.
unfoldable pub read_attempts {ℓ} :
    {A : Type ℓ} (read : RunLogReadIndex → Attempt → RunLogReadIndex × Option A)
    (meet : ℕ → Attempt) (left number : ℕ)
    → RunLogReadIndex
    → ReadResult A × RunLogReadIndex
unfolding reset_scan reset_for_segment
read_attempts read meet zero number index = (rotating, index)
read_attempts read meet (suc left) number index =
    let a = meet number in
    let (after, found) = read (reset_for_segment a.segment_epoch index) a in
    let again =
      read_attempts read meet left (suc number) (reset_for_segment a.current_epoch after) in
    if not a.opens then (unreadable, index) else elim found [
      | none ↦ (unreadable, reset_scan after)
      | some v ↦ if a.current_epoch == a.segment_epoch then (value v, after) else again
    ]

unfoldable pub read_consistent_segment {ℓ} :
    {A : Type ℓ} (read : RunLogReadIndex → Attempt → RunLogReadIndex × Option A)
    (meet : ℕ → Attempt)
    → RunLogReadIndex
    → ReadResult A × RunLogReadIndex
unfolding read_attempts
read_consistent_segment read meet index =
    read_attempts read meet max_stable_segment_read_attempts 0 index

-- The read of an attempt. Where it cannot seek, the caller drops what the index holds.
abbrev pub read_attempt :
    (tail after limit : Option ℕ)
    → RunLogReadIndex
    → Attempt
    → RunLogReadIndex × Option (List LogLine)
read_attempt tail after limit index a =
    let (lines, scanned) =
      read_segment a.readable_len a.fails_after a.readable tail after limit index in
    if a.seeks then (scanned, some lines) else (index, none)

unfoldable pub read_run_log_file :
    (meet : ℕ → Attempt) (tail after limit : Option ℕ)
    → RunLogReadIndex
    → ReadResult (List LogLine) × RunLogReadIndex
unfolding read_consistent_segment read_segment
read_run_log_file meet tail after limit index =
    read_consistent_segment (read_attempt tail after limit) meet index
