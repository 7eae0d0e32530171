-- ===== src/LogBuffer/Evict.antt =====
-- The two loops of `push` that pop the front, as functions of the lines alone.
use micromux.Prelude.{
  ℕ, ◌+◌, ◌≤◌, ◌≡◌, refl, ◌∙◌, List, [], ◌∷◌, ◌++◌, true, false, arith, Bool-cases, inl, inr,
  if◌then◌else◌, length, saturating_sub, u64_max,
}
use micromux.Text.{byte_len}
use micromux.LogBuffer.{
  LogLimit, bounded, unbounded, MemoryLogRetention, LogLine, evict_bytes, evict_lines, make_room,
  cap_lines,
}
use micromux.LogBuffer.Retain.{total_bytes, total_bytes-snoc, within, within_mono, fits, retain}

total_bytes_cons_le :
    (l : LogLine) (entries : List LogLine) → total_bytes entries ≤ total_bytes (l ∷ entries)
unfolding total_bytes
total_bytes_cons_le l entries = omega arith

-- The ends that the two loops keep: room for `n` more bytes, and no more lines than the limit.
unfoldable pub room : LogLimit → ℕ → List LogLine → List LogLine
room limit n [] = []
room limit n (l ∷ entries) =
    if within limit (total_bytes (l ∷ entries) + n) then l ∷ entries else room limit n entries

unfoldable pub last_lines : LogLimit → List LogLine → List LogLine
last_lines limit [] = []
last_lines limit (l ∷ entries) =
    if within limit (length (l ∷ entries)) then l ∷ entries else last_lines limit entries

add_sub : (a b : ℕ) → saturating_sub (a + b) a ≡ b
add_sub a b = omega arith

evict_bytes_lem :
    (most n : ℕ) (entries : List LogLine)
    → total_bytes entries + n ≤ u64_max
    → evict_bytes most n entries (total_bytes entries)
      ≡ (room (bounded most) n entries, total_bytes (room (bounded most) n entries))
unfolding evict_bytes room total_bytes
evict_bytes_lem most n [] h = refl
evict_bytes_lem most n (l ∷ entries) h =
    rw (add_sub (byte_len l.line) (total_bytes entries))
      (ground (arith, evict_bytes_lem most n entries (omega arith)))

pub make_room_lem :
    (limit : LogLimit) (n : ℕ) (entries : List LogLine)
    → total_bytes entries + n ≤ u64_max
    → make_room limit n entries (total_bytes entries)
      ≡ (room limit n entries, total_bytes (room limit n entries))
unfolding room
make_room_lem (bounded most) n entries h = evict_bytes_lem most n entries h
make_room_lem unbounded n [] h = refl
make_room_lem unbounded n (l ∷ entries) h = refl

evict_lines_lem :
    (most : ℕ) (entries : List LogLine)
    → evict_lines most entries (total_bytes entries)
      ≡ (last_lines (bounded most) entries, total_bytes (last_lines (bounded most) entries))
unfolding evict_lines last_lines total_bytes
evict_lines_lem most [] = refl
evict_lines_lem most (l ∷ entries) =
    rw (add_sub (byte_len l.line) (total_bytes entries))
      (ground (arith, evict_lines_lem most entries))

pub cap_lines_lem :
    (limit : LogLimit) (entries : List LogLine)
    → cap_lines limit entries (total_bytes entries)
      ≡ (last_lines limit entries, total_bytes (last_lines limit entries))
unfolding last_lines
cap_lines_lem (bounded most) entries = evict_lines_lem most entries
cap_lines_lem unbounded [] = refl
cap_lines_lem unbounded (l ∷ entries) = refl

-- Where all the bytes fit, only the number of lines matters.
retain-eq-last_lines :
    (r : MemoryLogRetention) (entries : List LogLine)
    → within r.max_bytes (total_bytes entries) ≡ true
    → retain r entries ≡ last_lines r.max_lines entries
unfolding retain fits last_lines
retain-eq-last_lines r [] h = refl
retain-eq-last_lines r (l ∷ entries) h =
    let rest =
      within_mono r.max_bytes (total_bytes entries) (total_bytes (l ∷ entries))
        (total_bytes_cons_le l entries) h in
    ground (arith, retain-eq-last_lines r entries rest)

total_bytes_one : (l : LogLine) → total_bytes (l ∷ []) ≡ byte_len l.line
unfolding total_bytes
total_bytes_one l = omega arith

pub total_bytes-room-le :
    (limit : LogLimit) (n : ℕ) (entries : List LogLine)
    → total_bytes (room limit n entries) ≤ total_bytes entries
unfolding room total_bytes
total_bytes-room-le limit n [] = omega arith
total_bytes-room-le limit n (l ∷ entries) = ground (arith, total_bytes-room-le limit n entries)

retain-skip :
    (r : MemoryLogRetention) (k : LogLine) (entries : List LogLine)
    → within r.max_bytes (total_bytes (k ∷ entries)) ≡ false
    → retain r (k ∷ entries) ≡ retain r entries
unfolding retain fits
retain-skip r k entries h = ground arith

pub retain-snoc :
    (r : MemoryLogRetention) (entries : List LogLine) (l : LogLine)
    → within r.max_bytes (byte_len l.line) ≡ true
    → retain r (entries ++ l ∷ [])
      ≡ last_lines r.max_lines (room r.max_bytes (byte_len l.line) entries ++ l ∷ [])
unfolding room
retain-snoc r [] l h = retain-eq-last_lines r (l ∷ []) (rw (total_bytes_one l) h)
retain-snoc r (k ∷ entries) l h =
    let bytes = total_bytes-snoc (k ∷ entries) l in
    elim (Bool-cases (within r.max_bytes (total_bytes (k ∷ entries) + byte_len l.line))) [
      | inl ok ↦ rw ok (retain-eq-last_lines r (k ∷ (entries ++ l ∷ [])) (rw bytes ok))
      | inr over ↦
          rw over (retain-skip r k (entries ++ l ∷ []) (rw bytes over) ∙ retain-snoc r entries l h)
    ]
