-- ===== src/LogBuffer/Replace.antt =====
-- `replace_last`, by which a live terminal snapshot line is updated in place.
use micromux.Prelude.{
  ◌+◌, ◌≤◌, ◌≡◌, refl, ap, ◌∙◌, List, [], ◌∷◌, ◌++◌, some, arith, Bool-cases, inl, inr, ◌==◌,
  if◌then◌else◌, saturating_sub, u64_max,
}
use micromux.Text.{byte_len}
use micromux.LogBuffer.{LogLine, MemoryLogBuffer, replace_last, back, pop_back, push, trimmed}
use micromux.LogBuffer.Retain.{total_bytes, total_bytes-snoc, retain}
use micromux.LogBuffer.Push.{IsAccounted, push-entries, push-IsAccounted}

pub back-snoc : (before : List LogLine) (last : LogLine) → back (before ++ last ∷ []) ≡ some last
back-snoc [] last = refl
back-snoc (l ∷ []) last = refl
back-snoc (l ∷ k ∷ rest) last = back-snoc (k ∷ rest) last

pub pop_back-snoc :
    (before : List LogLine) (last : LogLine) → pop_back (before ++ last ∷ []) ≡ before
pop_back-snoc [] last = refl
pop_back-snoc (l ∷ []) last = refl
pop_back-snoc (l ∷ k ∷ rest) last = ap (◌∷◌ l) (pop_back-snoc (k ∷ rest) last)

abbrev without_last : MemoryLogBuffer → List LogLine → MemoryLogBuffer
without_last b before = record b { entries = before; current_bytes = total_bytes before }

replace_last_at :
    (b : MemoryLogBuffer) (l : LogLine) (before : List LogLine) (last : LogLine)
    → b.entries ≡ before ++ last ∷ []
    → IsAccounted b
    → replace_last b l ≡ (if last.seq == l.seq then push (without_last b before) l else b)
unfolding replace_last
replace_last_at b l before last e counted =
    let at_back : back b.entries ≡ some last = ap back e ∙ back-snoc before last in
    let rest : pop_back b.entries ≡ before = ap pop_back e ∙ pop_back-snoc before last in
    let bytes : saturating_sub b.current_bytes (byte_len last.line) ≡ total_bytes before =
      omega (arith, total_bytes-snoc before last, ap total_bytes e) in
    rw (at_back, replace_last) (rw (rest, bytes))

-- On a buffer with a last line and an exact byte count, when the bytes held and those of the new
-- line as stored are below 2 ^ 64 in sum: with a last line of the same number, `replace_last`
-- writes the new line to the buffer without it; with a last line of another number it keeps the
-- lines. The byte count stays exact.
pub replace_last_lem :
    (b : MemoryLogBuffer) (l : LogLine) (before : List LogLine) (last : LogLine)
    → b.entries ≡ before ++ last ∷ []
    → IsAccounted b
    → total_bytes b.entries + byte_len (trimmed b.retention.max_bytes l).line ≤ u64_max
    → let kept = trimmed b.retention.max_bytes l in
      ((replace_last b l).entries
        ≡ (if last.seq == l.seq then retain b.retention (before ++ kept ∷ []) else b.entries))
      × IsAccounted (replace_last b l)
replace_last_lem b l before last e counted small =
    let popped = without_last b before in
    let less : total_bytes before + byte_len (trimmed b.retention.max_bytes l).line ≤ u64_max =
      omega (arith, total_bytes-snoc before last, ap total_bytes e) in
    rw (replace_last_at b l before last e counted) (elim (Bool-cases (last.seq == l.seq)) [
      | inl same ↦ rw same (push-entries popped l refl less, push-IsAccounted popped l refl less)
      | inr other ↦ rw other (refl, counted)
    ])
