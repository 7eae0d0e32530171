-- ===== src/Text/Suffix.antt =====
-- crates/micromux/src/model/memory.rs: `trim_to_last_bytes`.
use micromux.Prelude.{
  ℕ, ◌+◌, ◌-◌, ◌≤◌, ◌<◌, ◌≡◌, refl, ap, [], ◌∷◌, ◌++◌, arith, Bool-cases, inl, inr, leb,
  if◌then◌else◌,
}
use micromux.Text.{Text, width, byte_len, char_indices, find_from, split_off, trim_to_last_bytes}

pub width_bounds : (c : ℕ) → (1 ≤ width c) × (width c ≤ 4)
unfolding width
width_bounds c = ground arith

pub byte_len-append : (xs ys : Text) → byte_len (xs ++ ys) ≡ byte_len xs + byte_len ys
unfolding byte_len
byte_len-append [] ys = omega arith
byte_len-append (x ∷ xs) ys = omega (arith, byte_len-append xs ys)

-- The first suffix, by whole characters, that takes at most `max_bytes`.
unfoldable pub longest_suffix : ℕ → Text → Text
longest_suffix max_bytes [] = []
longest_suffix max_bytes (c ∷ cs) =
    if leb (byte_len (c ∷ cs)) max_bytes then c ∷ cs else longest_suffix max_bytes cs

longest_suffix_all : (m : ℕ) (s : Text) → byte_len s ≤ m → longest_suffix m s ≡ s
unfolding longest_suffix
longest_suffix_all m [] h = refl
longest_suffix_all m (c ∷ cs) h = ground arith

longest_suffix_zero : (s : Text) → longest_suffix 0 s ≡ []
unfolding longest_suffix byte_len
longest_suffix_zero [] = refl
longest_suffix_zero (c ∷ cs) = ground (arith, width_bounds c, longest_suffix_zero cs)

pub cons_tail : {c x : ℕ} {cs xs : Text} → c ∷ cs ≡ x ∷ xs → cs ≡ xs
cons_tail e = cc

pub byte_len-cons : (c : ℕ) (cs : Text) → byte_len (c ∷ cs) ≡ width c + byte_len cs
unfolding byte_len
byte_len-cons c cs = refl

sub_sub : (a b c : ℕ) → a - b - c ≡ a - (b + c)
sub_sub a b c = omega arith

find_from-le :
    (m at : ℕ) (cs : Text) (len : ℕ)
    → at ≤ len
    → at + byte_len cs ≤ len
    → at ≤ find_from m (char_indices at cs) len
unfolding find_from char_indices byte_len
find_from-le m at [] len h k = h
find_from-le m at (c ∷ cs) len h k =
    ground (arith, find_from-le m (at + width c) cs len (omega arith) (omega arith))

split_off-find_from :
    (max_bytes at : ℕ) (cs : Text) (len : ℕ)
    → max_bytes < len
    → at + byte_len cs ≡ len
    → split_off (find_from (len - max_bytes) (char_indices at cs) len - at) cs
      ≡ longest_suffix max_bytes cs
unfolding find_from char_indices split_off longest_suffix
split_off-find_from m at [] len h e = refl
split_off-find_from m at (c ∷ cs) len h e =
    let above = at + width c in
    let bytes = byte_len-cons c cs in
    let found = find_from (len - m) (char_indices above cs) len in
    let later : above ≤ found = find_from-le (len - m) above cs len (omega arith) (omega arith) in
    ground (
      arith,
      width_bounds c,
      later,
      split_off-find_from m above cs len h (omega arith),
      sub_sub found at (width c),
    )

abbrev found : ℕ → Text → ℕ
found m line = find_from (byte_len line - m) (char_indices 0 line) (byte_len line)

sub-zero : (a : ℕ) → a - 0 ≡ a
sub-zero a = omega arith

-- A cut that keeps the end of a text keeps the longest end that fits.
pub trim_to_last_bytes-eq-longest_suffix :
    (line : Text) (max_bytes : ℕ)
    → trim_to_last_bytes line max_bytes ≡ longest_suffix max_bytes line
unfolding trim_to_last_bytes
trim_to_last_bytes-eq-longest_suffix line m = ground (
  arith,
  longest_suffix_all m line,
  longest_suffix_zero line,
  split_off-find_from m 0 line (byte_len line),
  sub-zero (found m line),
)

byte_len_nil-le : (m : ℕ) → byte_len [] ≤ m
unfolding byte_len
byte_len_nil-le m = omega arith

pub longest_suffix-le : (m : ℕ) (s : Text) → byte_len (longest_suffix m s) ≤ m
unfolding longest_suffix
longest_suffix-le m [] = byte_len_nil-le m
longest_suffix-le m (c ∷ cs) = ground (arith, longest_suffix-le m cs)

pub longest_suffix_split :
    (m : ℕ) (s : Text) → (removed : Text) × (s ≡ removed ++ longest_suffix m s)
unfolding longest_suffix
longest_suffix_split m [] = ([], refl)
longest_suffix_split m (c ∷ cs) = elim (Bool-cases (leb (byte_len (c ∷ cs)) m)) [
  | inl fits ↦ ([], rw fits)
  | inr long ↦ let (removed, e) = longest_suffix_split m cs in (c ∷ removed, rw long (ap (◌∷◌ c) e))
]

pub longest_suffix_longest :
    (m : ℕ) (s p q : Text)
    → s ≡ p ++ q
    → byte_len q ≤ m
    → byte_len q ≤ byte_len (longest_suffix m s)
unfolding longest_suffix
longest_suffix_longest m s [] q e h = ground (arith, longest_suffix_all m s)
longest_suffix_longest m [] (x ∷ p) q e h = cc
longest_suffix_longest m (c ∷ cs) (x ∷ p) q e h = ground (
  arith,
  longest_suffix_longest m cs p q (cons_tail e) h,
  byte_len-append (x ∷ p) q,
  ap byte_len e,
)

-- `trim_to_last_bytes` keeps an end of the text, of at most `max_bytes` bytes, and no end of the
-- text that fits is longer.
pub trim_to_last_bytes_longest :
    (line p q : Text) (max_bytes : ℕ)
    → line ≡ p ++ q
    → byte_len q ≤ max_bytes
    → ((removed : Text) × (line ≡ removed ++ trim_to_last_bytes line max_bytes))
      × (byte_len (trim_to_last_bytes line max_bytes) ≤ max_bytes)
      × (byte_len q ≤ byte_len (trim_to_last_bytes line max_bytes))
trim_to_last_bytes_longest line p q m e h =
    rw (trim_to_last_bytes-eq-longest_suffix line m)
      (longest_suffix_split m line, longest_suffix-le m line, longest_suffix_longest m line p q e h)
