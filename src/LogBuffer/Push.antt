-- ===== src/LogBuffer/Push.antt =====
-- crates/micromux/src/model/memory.rs: `push` and the abstract view of the buffer.
use micromux.Prelude.{
  ◌+◌, ◌≤◌, ◌≡◌, refl, sym, [], ◌∷◌, ◌++◌, true, arith, saturating_add_lem, u64_max,
}
use micromux.Text.{byte_len}
use micromux.Text.Suffix.{longest_suffix-le, trim_to_last_bytes-eq-longest_suffix}
use micromux.LogBuffer.{LogLimit, bounded, unbounded, LogLine, MemoryLogBuffer, trimmed, push}
use micromux.LogBuffer.Retain.{total_bytes, total_bytes-snoc, within, retain}
use micromux.LogBuffer.Evict.{
  total_bytes-room-le, retain-snoc, room, last_lines, make_room_lem, cap_lines_lem,
}

-- The byte count is the sum of the retained lines' lengths.
abbrev pub IsAccounted : MemoryLogBuffer → Type 0
IsAccounted b = b.current_bytes ≡ total_bytes b.entries

-- A stored line is within the byte limit.
trimmed-within :
    (limit : LogLimit) (l : LogLine) → within limit (byte_len (trimmed limit l).line) ≡ true
unfolding trimmed
trimmed-within (bounded most) l =
    rw (trim_to_last_bytes-eq-longest_suffix l.line most)
      (ground (arith, longest_suffix-le most l.line))
trimmed-within unbounded l = refl

-- What `push` does to the deque and the count, by the two ends that its loops keep.
push_held :
    (b : MemoryLogBuffer) (l : LogLine)
    → IsAccounted b
    → total_bytes b.entries + byte_len (trimmed b.retention.max_bytes l).line ≤ u64_max
    → let stored = trimmed b.retention.max_bytes l in
      let kept =
        last_lines b.retention.max_lines
          (room b.retention.max_bytes (byte_len stored.line) b.entries ++ stored ∷ []) in
      push b l ≡ record b { entries = kept; current_bytes = total_bytes kept }
unfolding push
push_held b l e h =
    let stored = trimmed b.retention.max_bytes l in
    let n = byte_len stored.line in
    let kept = room b.retention.max_bytes n b.entries in
    let small : total_bytes kept + n ≤ u64_max =
      omega (arith, total_bytes-room-le b.retention.max_bytes n b.entries) in
    rw (e, make_room_lem b.retention.max_bytes n b.entries h, saturating_add_lem _ _ small)
      (rw
        (← total_bytes-snoc kept stored, cap_lines_lem b.retention.max_lines (kept ++ stored ∷ [])))

-- `push` keeps what the abstract view keeps of the lines held before and the stored line.
pub push-entries :
    (b : MemoryLogBuffer) (l : LogLine)
    → IsAccounted b
    → total_bytes b.entries + byte_len (trimmed b.retention.max_bytes l).line ≤ u64_max
    → (push b l).entries ≡ retain b.retention (b.entries ++ trimmed b.retention.max_bytes l ∷ [])
push-entries b l e h = rw (push_held b l e h) (
    sym (
      retain-snoc b.retention b.entries (trimmed b.retention.max_bytes l)
        (trimmed-within b.retention.max_bytes l)))

pub push-IsAccounted :
    (b : MemoryLogBuffer) (l : LogLine)
    → IsAccounted b
    → total_bytes b.entries + byte_len (trimmed b.retention.max_bytes l).line ≤ u64_max
    → IsAccounted (push b l)
push-IsAccounted b l e h = rw (push_held b l e h)

pub push-retention : (b : MemoryLogBuffer) (l : LogLine) → (push b l).retention ≡ b.retention
unfolding push
push-retention b l = refl
