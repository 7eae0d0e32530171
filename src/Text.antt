-- ===== src/Text.antt =====
-- crates/micromux/src/model/memory.rs: the two functions that cut a string to a number of bytes.
-- A Rust `String` is the list of its characters (Unicode scalar values), and its length in bytes is
-- the sum of their UTF-8 widths.
pub mod Suffix
pub mod Prefix
mod Examples
use micromux.Prelude.{
  ℕ, zero, suc, ◌+◌, ◌-◌, List, [], ◌∷◌, Option, none, some, ltb, leb, ◌==◌, if◌then◌else◌,
}

abbrev pub Text : Type 0
Text = List ℕ

-- `char::len_utf8`
unfoldable pub width : ℕ → ℕ
width c = if ltb c 0x80 then 1 else if ltb c 0x800 then 2 else if ltb c 0x10000 then 3 else 4

-- `str::len`
unfoldable pub byte_len : Text → ℕ
byte_len [] = 0
byte_len (c ∷ cs) = width c + byte_len cs

-- `str::char_indices`, the offsets only, from a first offset.
unfoldable pub char_indices : ℕ → Text → List ℕ
char_indices at [] = []
char_indices at (c ∷ cs) = at ∷ char_indices (at + width c) cs

-- `.find(|idx| *idx >= min_start).unwrap_or(line.len())`
unfoldable pub find_from : ℕ → List ℕ → ℕ → ℕ
find_from min_start [] len = len
find_from min_start (idx ∷ rest) len =
    if leb min_start idx then idx else find_from min_start rest len

-- `.take_while(|idx| *idx <= max_bytes).last().unwrap_or(0)`, with the last offset so far.
unfoldable pub last_within : ℕ → List ℕ → ℕ → ℕ
last_within max_bytes [] last = last
last_within max_bytes (idx ∷ rest) last =
    let further = last_within max_bytes rest idx in if leb idx max_bytes then further else last

-- `String::split_off`, the part from a byte offset on, at a character boundary.
unfoldable pub split_off : ℕ → Text → Text
split_off start [] = []
split_off start (c ∷ cs) = if start == 0 then c ∷ cs else split_off (start - width c) cs

-- `String::truncate`, the part up to a byte offset, at a character boundary.
unfoldable pub truncate : ℕ → Text → Text
truncate end [] = []
truncate end (c ∷ cs) = if end == 0 then [] else c ∷ truncate (end - width c) cs

unfoldable pub trim_to_last_bytes : Text → ℕ → Text
unfolding find_from char_indices split_off byte_len width
trim_to_last_bytes line max_bytes =
    if leb (byte_len line) max_bytes
    then line
    else if max_bytes == 0
    then []
    else split_off (find_from (byte_len line - max_bytes) (char_indices 0 line) (byte_len line))
        line

unfoldable pub truncate_to_first_bytes : Text → ℕ → Text
unfolding last_within char_indices truncate byte_len width
truncate_to_first_bytes line max_bytes =
    if leb (byte_len line) max_bytes
    then line
    else truncate (last_within max_bytes (char_indices 0 line) 0) line
