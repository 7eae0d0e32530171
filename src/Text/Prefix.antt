-- ===== src/Text/Prefix.antt =====
-- crates/micromux/src/model/memory.rs: `truncate_to_first_bytes`.
use micromux.Prelude.{
  ℕ, ◌+◌, ◌-◌, ◌≤◌, ◌<◌, ◌≡◌, refl, ap, [], ◌∷◌, ◌++◌, arith, Bool-cases, inl, inr, leb,
  if◌then◌else◌,
}
use micromux.Text.{
  Text, width, byte_len, char_indices, last_within, truncate, truncate_to_first_bytes,
}
use micromux.Text.Suffix.{width_bounds, byte_len-cons, cons_tail}

unfoldable pub longest_prefix : ℕ → Text → Text
longest_prefix max_bytes [] = []
longest_prefix max_bytes (c ∷ cs) =
    if leb (width c) max_bytes then c ∷ longest_prefix (max_bytes - width c) cs else []

longest_prefix_all : (m : ℕ) (s : Text) → byte_len s ≤ m → longest_prefix m s ≡ s
unfolding longest_prefix byte_len
longest_prefix_all m [] h = refl
longest_prefix_all m (c ∷ cs) h = ground (arith, longest_prefix_all (m - width c) cs)

last_within-le :
    (m at last : ℕ) (cs : Text) → last ≤ at → last ≤ last_within m (char_indices at cs) last
unfolding last_within char_indices
last_within-le m at last [] h = omega arith
last_within-le m at last (c ∷ cs) h = ground (arith, last_within-le m (at + width c) at cs)

-- Past the limit no further character starts within it.
last_within_past :
    (m at last : ℕ) (cs : Text) → m < at → last_within m (char_indices at cs) last ≡ last
unfolding last_within char_indices
last_within_past m at last [] h = refl
last_within_past m at last (c ∷ cs) h = ground arith

truncate-zero : (cs : Text) → truncate 0 cs ≡ []
unfolding truncate
truncate-zero [] = refl
truncate-zero (c ∷ cs) = refl

sub_sub : (a b c : ℕ) → a - b - c ≡ a - (b + c)
sub_sub a b c = omega arith

last_within_step :
    (m at last c : ℕ) (cs : Text)
    → at ≤ m
    → last_within m (char_indices at (c ∷ cs)) last
      ≡ last_within m (char_indices (at + width c) cs) at
unfolding last_within char_indices
last_within_step m at last c cs h = ground arith

last_within_reaches :
    (m at last : ℕ) (cs : Text)
    → at ≤ m
    → m < at + byte_len cs
    → at ≤ last_within m (char_indices at cs) last
unfolding byte_len
last_within_reaches m at last [] h k = absurd (omega arith)
last_within_reaches m at last (c ∷ cs) h k =
    rw (last_within_step m at last c cs h) (last_within-le m (at + width c) at cs (omega arith))

truncate-cons : (n c : ℕ) (cs : Text) → 0 < n → truncate n (c ∷ cs) ≡ c ∷ truncate (n - width c) cs
unfolding truncate
truncate-cons n c cs h = ground arith

truncate-last_within :
    (m at last : ℕ) (cs : Text)
    → at ≤ m
    → m < at + byte_len cs
    → truncate (last_within m (char_indices at cs) last - at) cs ≡ longest_prefix (m - at) cs
unfolding longest_prefix truncate
truncate-last_within m at last [] h k = refl
truncate-last_within m at last (c ∷ cs) h k =
    let next = at + width c in
    let bytes = byte_len-cons c cs in
    let stop = last_within m (char_indices next cs) at in
    rw (last_within_step m at last c cs h) (elim (Bool-cases (leb (width c) (m - at))) [
      | inl fits ↦
          let within : next ≤ m = ground (arith, width_bounds c) in
          let reaches = last_within_reaches m next at cs within (omega arith) in
          rw (truncate-cons (stop - at) c cs (omega (arith, width_bounds c))) (
            ground (
              arith,
              truncate-last_within m next at cs within (omega arith),
              sub_sub stop at (width c),
              sub_sub m at (width c),
            ))
      | inr long ↦
          let past : m < next = ground arith in
          ground (arith, last_within_past m next at cs past, truncate-zero (c ∷ cs))
    ])

sub-zero : (a : ℕ) → a - 0 ≡ a
sub-zero a = omega arith

-- A cut that keeps the beginning of a text keeps the longest beginning that fits.
pub truncate_to_first_bytes-eq-longest_prefix :
    (line : Text) (max_bytes : ℕ)
    → truncate_to_first_bytes line max_bytes ≡ longest_prefix max_bytes line
unfolding truncate_to_first_bytes
truncate_to_first_bytes-eq-longest_prefix line m = ground (
  arith,
  longest_prefix_all m line,
  truncate-last_within m 0 0 line,
  sub-zero (last_within m (char_indices 0 line) 0),
  sub-zero m,
)

longest_prefix-le : (m : ℕ) (s : Text) → byte_len (longest_prefix m s) ≤ m
unfolding longest_prefix byte_len
longest_prefix-le m [] = omega arith
longest_prefix-le m (c ∷ cs) = ground (arith, longest_prefix-le (m - width c) cs)

longest_prefix_split : (m : ℕ) (s : Text) → (removed : Text) × (s ≡ longest_prefix m s ++ removed)
unfolding longest_prefix
longest_prefix_split m [] = ([], refl)
longest_prefix_split m (c ∷ cs) = elim (Bool-cases (leb (width c) m)) [
  | inl fits ↦
      let (removed, e) = longest_prefix_split (m - width c) cs in (removed, rw fits (ap (◌∷◌ c) e))
  | inr long ↦ (c ∷ cs, rw long)
]

cons_head : {c x : ℕ} {cs xs : Text} → c ∷ cs ≡ x ∷ xs → c ≡ x
cons_head e = cc

longest_prefix_longest :
    (m : ℕ) (s p q : Text)
    → s ≡ p ++ q
    → byte_len p ≤ m
    → byte_len p ≤ byte_len (longest_prefix m s)
unfolding longest_prefix byte_len
longest_prefix_longest m s [] q e h = omega arith
longest_prefix_longest m [] (x ∷ p) q e h = cc
longest_prefix_longest m (c ∷ cs) (x ∷ p) q e h =
    ground (arith, longest_prefix_longest (m - width c) cs p q (cons_tail e), cons_head e)

-- `truncate_to_first_bytes` keeps a beginning of the text, of at most `max_bytes` bytes, and no
-- beginning of the text that fits is longer.
pub truncate_to_first_bytes_longest :
    (line p q : Text) (max_bytes : ℕ)
    → line ≡ p ++ q
    → byte_len p ≤ max_bytes
    → ((removed : Text) × (line ≡ truncate_to_first_bytes line max_bytes ++ removed))
      × (byte_len (truncate_to_first_bytes line max_bytes) ≤ max_bytes)
      × (byte_len p ≤ byte_len (truncate_to_first_bytes line max_bytes))
truncate_to_first_bytes_longest line p q m e h =
    rw (truncate_to_first_bytes-eq-longest_prefix line m)
      (longest_prefix_split m line, longest_prefix-le m line, longest_prefix_longest m line p q e h)
