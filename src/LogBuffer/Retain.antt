-- ===== src/LogBuffer/Retain.antt =====
-- The abstract view of the buffer: the longest end of the lines written that is within the limits.
use micromux.Prelude.{
  ℕ, ◌+◌, ◌≤◌, ◌≡◌, refl, ap, List, [], ◌∷◌, ◌++◌, Bool, true, false, arith, Bool-cases, inl, inr,
  leb, ◌&&◌, if◌then◌else◌, length, length-append,
}
use micromux.Text.{byte_len}
use micromux.LogBuffer.{LogLimit, bounded, unbounded, MemoryLogRetention, LogLine}

unfoldable pub total_bytes : List LogLine → ℕ
total_bytes [] = 0
total_bytes (l ∷ entries) = byte_len l.line + total_bytes entries

abbrev pub within : LogLimit → ℕ → Bool
within (bounded most) n = leb n most
within unbounded n = true

-- Whether some lines are within both limits.
unfoldable pub fits : MemoryLogRetention → List LogLine → Bool
fits r entries = within r.max_lines (length entries) && within r.max_bytes (total_bytes entries)

-- The longest end of the lines that fits.
unfoldable pub retain : MemoryLogRetention → List LogLine → List LogLine
retain r [] = []
retain r (l ∷ entries) = if fits r (l ∷ entries) then l ∷ entries else retain r entries

pub total_bytes-append :
    (xs ys : List LogLine) → total_bytes (xs ++ ys) ≡ total_bytes xs + total_bytes ys
unfolding total_bytes
total_bytes-append [] ys = omega arith
total_bytes-append (x ∷ xs) ys = omega (arith, total_bytes-append xs ys)

pub total_bytes-snoc :
    (entries : List LogLine) (l : LogLine)
    → total_bytes (entries ++ l ∷ []) ≡ total_bytes entries + byte_len l.line
unfolding total_bytes
total_bytes-snoc [] l = omega arith
total_bytes-snoc (k ∷ entries) l = omega (arith, total_bytes-snoc entries l)

pub within_mono :
    (limit : LogLimit) (m n : ℕ) → m ≤ n → within limit n ≡ true → within limit m ≡ true
within_mono (bounded most) m n h k = ground arith
within_mono unbounded m n h k = refl

fits_nil :
    (lines bytes : LogLimit) → fits (record { max_lines = lines; max_bytes = bytes }) [] ≡ true
unfolding fits total_bytes
fits_nil (bounded m) (bounded n) = ground arith
fits_nil (bounded m) unbounded = ground arith
fits_nil unbounded (bounded n) = ground arith
fits_nil unbounded unbounded = refl

-- The end that is kept fits.
pub retain-fits :
    (r : MemoryLogRetention) (entries : List LogLine) → fits r (retain r entries) ≡ true
unfolding retain
retain-fits r [] = fits_nil r.max_lines r.max_bytes
retain-fits r (l ∷ entries) = ground (arith, retain-fits r entries)

pub retain_split :
    (r : MemoryLogRetention) (entries : List LogLine)
    → (removed : List LogLine) × (entries ≡ removed ++ retain r entries)
unfolding retain
retain_split r [] = ([], refl)
retain_split r (l ∷ entries) = elim (Bool-cases (fits r (l ∷ entries))) [
  | inl ok ↦ ([], rw ok)
  | inr over ↦ let (removed, e) = retain_split r entries in (l ∷ removed, rw over (ap (◌∷◌ l) e))
]

retain_all :
    (r : MemoryLogRetention) (entries : List LogLine)
    → fits r entries ≡ true
    → retain r entries ≡ entries
unfolding retain
retain_all r [] h = refl
retain_all r (l ∷ entries) h = rw h

cons_tail : {l k : LogLine} {xs ys : List LogLine} → l ∷ xs ≡ k ∷ ys → xs ≡ ys
cons_tail e = cc

pub retain_longest :
    (r : MemoryLogRetention) (entries p q : List LogLine)
    → entries ≡ p ++ q
    → fits r q ≡ true
    → length q ≤ length (retain r entries)
unfolding retain
retain_longest r entries [] q e h = ground (arith, retain_all r q h)
retain_longest r [] (k ∷ p) q e h = cc
retain_longest r (l ∷ entries) (k ∷ p) q e h =
    ground
      (arith, retain_longest r entries p q (cons_tail e) h, length-append (k ∷ p) q, ap length e)

-- What no longer fits does not fit with one more line.
fits_snoc :
    (r : MemoryLogRetention) (entries : List LogLine) (l : LogLine)
    → fits r entries ≡ false
    → fits r (entries ++ l ∷ []) ≡ false
unfolding fits
fits_snoc r entries l h = ground (
  arith,
  within_mono r.max_lines (length entries) (length (entries ++ l ∷ [])),
  within_mono r.max_bytes (total_bytes entries) (total_bytes (entries ++ l ∷ [])),
  length-append entries (l ∷ []),
  total_bytes-snoc entries l,
)

-- Lines that were dropped before do not matter for what is kept.
pub retain-retain-snoc :
    (r : MemoryLogRetention) (entries : List LogLine) (l : LogLine)
    → retain r (retain r entries ++ l ∷ []) ≡ retain r (entries ++ l ∷ [])
unfolding retain
retain-retain-snoc r [] l = refl
retain-retain-snoc r (k ∷ entries) l = elim (Bool-cases (fits r (k ∷ entries))) [
  | inl ok ↦ rw ok
  | inr over ↦ rw (over, fits_snoc r (k ∷ entries) l over) (retain-retain-snoc r entries l)
]
