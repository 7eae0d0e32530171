-- ===== src/LogBuffer/History.antt =====
-- What the buffer holds after any number of writes, and after its limits are changed.
use micromux.Prelude.{
  ◌+◌, ◌≤◌, ◌≡◌, refl, ap, ◌∙◌, List, [], ◌∷◌, ◌++◌, true, arith, length, map, u64_max,
  append_assoc, append-nil,
}
use micromux.Text.{byte_len}
use micromux.LogBuffer.{
  LogLimit, MemoryLogRetention, LogLine, MemoryLogBuffer, new, trimmed, push, push_all, reconfigure,
}
use micromux.LogBuffer.Retain.{
  total_bytes, total_bytes-append, fits, retain, retain-fits, retain_split, retain_longest,
  retain-retain-snoc,
}
use micromux.LogBuffer.Push.{IsAccounted, push-entries, push-IsAccounted}

-- The lines as they are stored.
abbrev pub stored : LogLimit → List LogLine → List LogLine
stored limit written = map (trimmed limit) written

total_bytes-retain-le :
    (r : MemoryLogRetention) (entries : List LogLine)
    → total_bytes (retain r entries) ≤ total_bytes entries
total_bytes-retain-le r entries =
    let (removed, e) = retain_split r entries in
    omega (arith, total_bytes-append removed (retain r entries), ap total_bytes e)

total_bytes_cons :
    (l : LogLine) (entries : List LogLine)
    → total_bytes (l ∷ entries) ≡ byte_len l.line + total_bytes entries
unfolding total_bytes
total_bytes_cons l entries = refl

push_all-entries :
    (written : List LogLine) (b : MemoryLogBuffer) (before : List LogLine)
    → IsAccounted b
    → b.entries ≡ retain b.retention before
    → total_bytes (before ++ stored b.retention.max_bytes written) ≤ u64_max
    → ((push_all b written).entries
        ≡ retain b.retention (before ++ stored b.retention.max_bytes written))
      × IsAccounted (push_all b written)
unfolding push_all push
push_all-entries [] b before ea ee small = (rw append-nil ee, ea)
push_all-entries (l ∷ written) b before ea ee small =
    let kept = trimmed b.retention.max_bytes l in
    let rest = stored b.retention.max_bytes written in
    let one : total_bytes b.entries + byte_len kept.line ≤ u64_max = omega (
      arith,
      total_bytes-append before (kept ∷ rest),
      total_bytes_cons kept rest,
      total_bytes-retain-le b.retention before,
      ap total_bytes ee,
    ) in
    let now : (push b l).entries ≡ retain b.retention (before ++ kept ∷ []) =
      push-entries b l ea one
      ∙ ap (λ held. retain b.retention (held ++ kept ∷ [])) ee
      ∙ retain-retain-snoc b.retention before kept in
    rw (← append_assoc before (kept ∷ []) rest) (
      push_all-entries written (push b l) (before ++ kept ∷ []) (push-IsAccounted b l ea one) now
        (rw append_assoc small))

new_held : (r : MemoryLogRetention) → ((new r).entries ≡ retain r []) × IsAccounted (new r)
unfolding new retain total_bytes
new_held r = (refl, refl)

-- A new buffer to which lines are written, in the source's order, holds a run of the latest of the
-- lines as stored, cut to the byte limit: the limits are kept, the byte count is exact, and every
-- other run of latest lines `q` that is within the limits is no longer. The bytes of all the lines
-- written are below 2 ^ 64.
pub push_all_longest :
    (r : MemoryLogRetention) (written p q : List LogLine)
    → total_bytes (stored r.max_bytes written) ≤ u64_max
    → stored r.max_bytes written ≡ p ++ q
    → fits r q ≡ true
    → let b = push_all (new r) written in
      ((evicted : List LogLine) × (stored r.max_bytes written ≡ evicted ++ b.entries))
      × (fits r b.entries ≡ true)
      × (b.current_bytes ≡ total_bytes b.entries)
      × (length q ≤ length b.entries)
unfolding new
push_all_longest r written p q small e h =
    let all = stored r.max_bytes written in
    let (held, counted) = push_all-entries written (new r) [] (new_held r).1 (new_held r).0 small in
    rw held (
      retain_split r all,
      retain-fits r all,
      counted ∙ ap total_bytes held,
      retain_longest r all p q e h,
    )

-- New limits are applied to the lines that are held: each is cut to the new byte limit, and the
-- longest end of them that is within the new limits stays, with an exact byte count. The lines so
-- cut have less than 2 ^ 64 bytes in all.
pub reconfigure-entries :
    (b : MemoryLogBuffer) (r : MemoryLogRetention)
    → total_bytes (stored r.max_bytes b.entries) ≤ u64_max
    → ((reconfigure b r).entries ≡ retain r (stored r.max_bytes b.entries))
      × IsAccounted (reconfigure b r)
unfolding reconfigure retain total_bytes
reconfigure-entries b r small =
    push_all-entries b.entries (record { entries = []; current_bytes = 0; retention = r }) [] refl
      refl small
