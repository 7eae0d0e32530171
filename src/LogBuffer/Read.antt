-- ===== src/LogBuffer/Read.antt =====
-- Reading by cursor, and the operations that drop lines from an end of the deque.
use micromux.Prelude.{
  ℕ, ◌+◌, ◌≤◌, ◌<◌, ◌≡◌, refl, List, [], ◌∷◌, arith, leb, ltb, keep, drop, saturating_sub, All,
}
use micromux.Text.{byte_len}
use micromux.LogBuffer.{
  LogLine, MemoryLogBuffer, partition_point, lines_since, first_retained_seq, pop_before,
  clear_before_next_seq,
}
use micromux.LogBuffer.Retain.{total_bytes}
use micromux.LogBuffer.Push.{IsAccounted}

-- The sequence numbers grow from the front to the back.
abbrev pub IsOrdered : List LogLine → Type 0
IsOrdered [] = Unit
IsOrdered (l ∷ entries) = All (λ k. l.seq < k.seq) entries × IsOrdered entries

-- Behind an ordered line, all pass a test that the line passes.
keep_behind :
    (after low : ℕ) (entries : List LogLine)
    → All (λ k. low < k.seq) entries
    → after ≤ low
    → keep (λ k. ltb after k.seq) entries ≡ entries
keep_behind after low [] h le = refl
keep_behind after low (l ∷ entries) h le = ground (arith, keep_behind after low entries h.1, h.0)

keep_from :
    (next low : ℕ) (entries : List LogLine)
    → All (λ k. low < k.seq) entries
    → next ≤ low
    → keep (λ k. leb next k.seq) entries ≡ entries
keep_from next low [] h le = refl
keep_from next low (l ∷ entries) h le = ground (arith, keep_from next low entries h.1, h.0)

drop-partition_point :
    (after : ℕ) (entries : List LogLine)
    → IsOrdered entries
    → drop (partition_point after entries) entries ≡ keep (λ k. ltb after k.seq) entries
unfolding partition_point
drop-partition_point after [] h = refl
drop-partition_point after (l ∷ entries) h =
    ground (arith, drop-partition_point after entries h.1, keep_behind after l.seq entries h.0)

-- On a buffer whose sequence numbers grow, a cursor read returns exactly the held lines behind
-- the cursor, in order, and tells the number of the first line held.
pub lines_since_lem :
    (b : MemoryLogBuffer) (after : ℕ)
    → IsOrdered b.entries
    → lines_since b after ≡ (first_retained_seq b, keep (λ k. ltb after k.seq) b.entries)
unfolding lines_since
lines_since_lem b after h = rw (drop-partition_point after b.entries h)

add_sub : (a b : ℕ) → saturating_sub (a + b) a ≡ b
add_sub a b = omega arith

pop_before_lem :
    (next : ℕ) (entries : List LogLine)
    → IsOrdered entries
    → pop_before next entries (total_bytes entries)
      ≡ (let held = keep (λ k. leb next k.seq) entries in (held, total_bytes held))
unfolding pop_before total_bytes
pop_before_lem next [] h = refl
pop_before_lem next (l ∷ entries) h =
    rw (add_sub (byte_len l.line) (total_bytes entries))
      (ground (arith, pop_before_lem next entries h.1, keep_from next l.seq entries h.0))

-- On a buffer whose sequence numbers grow and whose byte count is exact, clearing drops exactly
-- the lines numbered below `next_seq`, keeps the others in order, the byte count exact and the
-- limits.
pub clear_before_next_seq_lem :
    (b : MemoryLogBuffer) (next_seq : ℕ)
    → IsOrdered b.entries
    → IsAccounted b
    → let cleared = clear_before_next_seq b next_seq in
      (cleared.entries ≡ keep (λ k. leb next_seq k.seq) b.entries)
      × IsAccounted cleared
      × (cleared.retention ≡ b.retention)
unfolding clear_before_next_seq
clear_before_next_seq_lem b next_seq ordered counted =
    rw (counted, pop_before_lem next_seq b.entries ordered) (refl, refl, refl)
