-- ===== src/LogBuffer/Ordered.antt =====
-- crates/micromux/src/model/memory.rs: the sequence numbers that a buffer holds.
use micromux.Prelude.{
  ℕ, suc, ◌≤◌, ◌<◌, ◌≡◌, List, [], ◌∷◌, ◌++◌, some, arith, subst, Option-cases, ltb, ◌==◌, length,
  saturating_add, saturating_sub, All, Bool-cases, inl, inr,
}
use micromux.Text.{byte_len}
use micromux.LogBuffer.{
  LogLimit, bounded, unbounded, MemoryLogRetention, LogLine, MemoryLogBuffer, evict_bytes,
  evict_lines, trimmed, make_room, cap_lines, push, append, back, pop_back, replace_last, push_all,
  reconfigure, pop_before, clear_before_next_seq,
}
use micromux.LogBuffer.Read.{IsOrdered}

-- The numbers grow, and are below a limit.
abbrev pub IsBelow : (limit : ℕ) → List LogLine → Type 0
IsBelow limit entries = IsOrdered entries × All (λ l. l.seq < limit) entries

tail-IsBelow :
    (limit : ℕ) (l : LogLine) (entries : List LogLine)
    → IsBelow limit (l ∷ entries)
    → IsBelow limit entries
tail-IsBelow limit l entries h = (h.0.1, h.1.1)

evict_bytes-IsBelow :
    (limit most len : ℕ) (entries : List LogLine) (current : ℕ)
    → IsBelow limit entries
    → IsBelow limit (evict_bytes most len entries current).0
unfolding evict_bytes
evict_bytes-IsBelow limit most len [] current h = h
evict_bytes-IsBelow limit most len (l ∷ entries) current h =
    elim (Bool-cases (ltb most (saturating_add current len))) [
      | inl over ↦
          rw over (evict_bytes-IsBelow limit most len entries _ (tail-IsBelow limit l entries h))
      | inr fits ↦ rw fits h
    ]

evict_lines-IsBelow :
    (limit most : ℕ) (entries : List LogLine) (current : ℕ)
    → IsBelow limit entries
    → IsBelow limit (evict_lines most entries current).0
unfolding evict_lines
evict_lines-IsBelow limit most [] current h = h
evict_lines-IsBelow limit most (l ∷ entries) current h =
    elim (Bool-cases (ltb most (length (l ∷ entries)))) [
      | inl over ↦
          rw over (evict_lines-IsBelow limit most entries _ (tail-IsBelow limit l entries h))
      | inr fits ↦ rw fits h
    ]

pop_before-IsBelow :
    (limit next : ℕ) (entries : List LogLine) (current : ℕ)
    → IsBelow limit entries
    → IsBelow limit (pop_before next entries current).0
unfolding pop_before
pop_before-IsBelow limit next [] current h = h
pop_before-IsBelow limit next (l ∷ entries) current h = elim (Bool-cases (ltb l.seq next)) [
  | inl old ↦ rw old (pop_before-IsBelow limit next entries _ (tail-IsBelow limit l entries h))
  | inr held ↦ rw held h
]

make_room-IsBelow :
    (limit : ℕ) (most : LogLimit) (len : ℕ) (entries : List LogLine) (current : ℕ)
    → IsBelow limit entries
    → IsBelow limit (make_room most len entries current).0
make_room-IsBelow limit (bounded most) len entries current h =
    evict_bytes-IsBelow limit most len entries current h
make_room-IsBelow limit unbounded len entries current h = h

cap_lines-IsBelow :
    (limit : ℕ) (most : LogLimit) (entries : List LogLine) (current : ℕ)
    → IsBelow limit entries
    → IsBelow limit (cap_lines most entries current).0
cap_lines-IsBelow limit (bounded most) entries current h =
    evict_lines-IsBelow limit most entries current h
cap_lines-IsBelow limit unbounded entries current h = h

All-snoc :
    (low : ℕ) (entries : List LogLine) (l : LogLine)
    → All (λ k. low < k.seq) entries
    → low < l.seq
    → All (λ k. low < k.seq) (entries ++ l ∷ [])
All-snoc low [] l h one = (one, tt)
All-snoc low (k ∷ entries) l h one = (h.0, All-snoc low entries l h.1 one)

-- A line with a number at or above the limit goes to the back.
pub snoc-IsBelow :
    (low limit : ℕ) (entries : List LogLine) (l : LogLine)
    → IsBelow low entries
    → low ≤ l.seq
    → low ≤ limit
    → l.seq < limit
    → IsBelow limit (entries ++ l ∷ [])
snoc-IsBelow low limit [] l h at le below = ((tt, tt), (below, tt))
snoc-IsBelow low limit (k ∷ entries) l h at le below =
    let rest = snoc-IsBelow low limit entries l (tail-IsBelow low k entries h) at le below in
    ((All-snoc k.seq entries l h.0.0 (omega arith), rest.0), (omega arith, rest.1))

trimmed-seq : (most : LogLimit) (l : LogLine) → (trimmed most l).seq ≡ l.seq
unfolding trimmed
trimmed-seq (bounded most) l = ground arith
trimmed-seq unbounded l = ground arith

pub push-IsBelow :
    (low limit : ℕ) (b : MemoryLogBuffer) (l : LogLine)
    → IsBelow low b.entries
    → low ≤ l.seq
    → low ≤ limit
    → l.seq < limit
    → IsBelow limit (push b l).entries
unfolding push
push-IsBelow low limit b l h at le below =
    let stored = trimmed b.retention.max_bytes l in
    let same = trimmed-seq b.retention.max_bytes l in
    cap_lines-IsBelow limit b.retention.max_lines _ _ (
      snoc-IsBelow low limit _ stored
        (make_room-IsBelow low b.retention.max_bytes (byte_len stored.line) b.entries
          b.current_bytes h)
        (omega arith) le (omega arith))

pub weaken-IsBelow :
    (low limit : ℕ) (entries : List LogLine)
    → low ≤ limit
    → IsBelow low entries
    → IsBelow limit entries
weaken-IsBelow low limit [] le h = h
weaken-IsBelow low limit (l ∷ entries) le h =
    ((h.0.0, h.0.1), (omega arith, (weaken-IsBelow low limit entries le (h.0.1, h.1.1)).1))

All-pop_back :
    (P : LogLine → Type 0) (entries : List LogLine) → All P entries → All P (pop_back entries)
All-pop_back P [] h = tt
All-pop_back P (k ∷ []) h = tt
All-pop_back P (k ∷ j ∷ rest) h = (h.0, All-pop_back P (j ∷ rest) h.1)

some_value : {k l : LogLine} → some k ≡ some l → k ≡ l
some_value e = cc

pub All-back :
    (P : LogLine → Type 0) (entries : List LogLine) (last : LogLine)
    → All P entries
    → back entries ≡ some last
    → P last
All-back P [] last h e = cc
All-back P (k ∷ []) last h e = subst P (some_value e) h.0
All-back P (k ∷ j ∷ rest) last h e = All-back P (j ∷ rest) last h.1 e

-- Without its last line, a buffer is below the number of that line.
pub pop_back-IsBelow :
    (limit : ℕ) (entries : List LogLine) (last : LogLine)
    → IsBelow limit entries
    → back entries ≡ some last
    → IsBelow last.seq (pop_back entries) × (last.seq < limit)
pop_back-IsBelow limit [] last h e = cc
pop_back-IsBelow limit (k ∷ []) last h e =
    ((tt, tt), All-back (λ j. j.seq < limit) (k ∷ []) last h.1 e)
pop_back-IsBelow limit (k ∷ j ∷ rest) last h e =
    let (below, under) =
      pop_back-IsBelow limit (j ∷ rest) last (tail-IsBelow limit k (j ∷ rest) h) e in
    let first = All-back (λ i. k.seq < i.seq) (j ∷ rest) last h.0.0 e in
    (((All-pop_back (λ i. k.seq < i.seq) (j ∷ rest) h.0.0, below.0), (first, below.1)), under)

pub replace_last-IsBelow :
    (limit : ℕ) (b : MemoryLogBuffer) (l : LogLine)
    → IsBelow limit b.entries
    → IsBelow limit (replace_last b l).entries
unfolding replace_last
replace_last-IsBelow limit b l h = elim (Option-cases (back b.entries)) [
  | inl e ↦ rw (e, replace_last) h
  | inr (last, e) ↦
      let (below, under) = pop_back-IsBelow limit b.entries last h e in
      elim (Bool-cases (last.seq == l.seq)) [
        | inl same ↦
            rw (e, same, replace_last)
              (push-IsBelow last.seq limit
                (record b {
                  entries = pop_back b.entries;
                  current_bytes = saturating_sub b.current_bytes (byte_len last.line);
                })
                l below (ground (arith, same)) (omega arith) (ground (arith, same)))
        | inr other ↦ rw (e, other, replace_last) h
      ]
]

pub clear_before_next_seq-IsBelow :
    (limit next : ℕ) (b : MemoryLogBuffer)
    → IsBelow limit b.entries
    → IsBelow limit (clear_before_next_seq b next).entries
unfolding clear_before_next_seq
clear_before_next_seq-IsBelow limit next b h =
    pop_before-IsBelow limit next b.entries b.current_bytes h

push_all-IsBelow :
    (low limit : ℕ) (b : MemoryLogBuffer) (lines : List LogLine)
    → IsBelow low b.entries
    → low ≤ limit
    → All (λ k. low ≤ k.seq) lines
    → IsBelow limit lines
    → IsBelow limit (push_all b lines).entries
unfolding push_all
push_all-IsBelow low limit b [] h le over below = weaken-IsBelow low limit b.entries le h
push_all-IsBelow low limit b (l ∷ lines) h le over below =
    push_all-IsBelow (suc l.seq) limit (push b l) lines
      (push-IsBelow low (suc l.seq) b l h over.0 (omega arith) (omega arith)) (omega arith)
      below.0.0 (below.0.1, below.1.1)

from_zero : (lines : List LogLine) → All (λ k. 0 ≤ k.seq) lines
from_zero [] = tt
from_zero (l ∷ lines) = (omega arith, from_zero lines)

pub reconfigure-IsBelow :
    (limit : ℕ) (b : MemoryLogBuffer) (retention : MemoryLogRetention)
    → IsBelow limit b.entries
    → IsBelow limit (reconfigure b retention).entries
unfolding reconfigure
reconfigure-IsBelow limit b retention h =
    push_all-IsBelow 0 limit (record b { entries = []; current_bytes = 0; retention = retention })
      b.entries (tt, tt) (omega arith) (from_zero b.entries) h

pub append-IsBelow :
    (low limit : ℕ) (b : MemoryLogBuffer) (l : LogLine)
    → IsBelow low b.entries
    → low ≤ l.seq
    → low ≤ limit
    → l.seq < limit
    → IsBelow limit (append b l).entries
unfolding append
append-IsBelow low limit b l h at le below = push-IsBelow low limit b l h at le below
