-- ===== src/Text/Examples.antt =====
-- Small inputs of the two cuts. "aé€" is 1 + 2 + 3 bytes.
use micromux.Prelude.{◌≤◌, ◌≡◌, refl, [], ◌∷◌, ◌++◌, arith}
use micromux.Text.{Text, byte_len, width, trim_to_last_bytes, truncate_to_first_bytes}
use micromux.Text.Suffix.{trim_to_last_bytes_longest}
use micromux.Text.Prefix.{truncate_to_first_bytes_longest}

abbrev letters : Text
letters = 0x61 ∷ 0xe9 ∷ 0x20ac ∷ []

trim_drops_whole_characters : trim_to_last_bytes letters 4 ≡ 0x20ac ∷ []
unfolding trim_to_last_bytes
trim_drops_whole_characters = refl

truncate_drops_whole_characters : truncate_to_first_bytes letters 5 ≡ 0x61 ∷ 0xe9 ∷ []
unfolding truncate_to_first_bytes
truncate_drops_whole_characters = refl

trim_to_last_bytes_longest_example :
    ((removed : Text) × (letters ≡ removed ++ trim_to_last_bytes letters 4))
    × (byte_len (trim_to_last_bytes letters 4) ≤ 4)
    × (byte_len (0x20ac ∷ []) ≤ byte_len (trim_to_last_bytes letters 4))
unfolding byte_len width
trim_to_last_bytes_longest_example =
    trim_to_last_bytes_longest letters (0x61 ∷ 0xe9 ∷ []) (0x20ac ∷ []) 4 refl (omega arith)

truncate_to_first_bytes_longest_example :
    ((removed : Text) × (letters ≡ truncate_to_first_bytes letters 5 ++ removed))
    × (byte_len (truncate_to_first_bytes letters 5) ≤ 5)
    × (byte_len (0x61 ∷ 0xe9 ∷ []) ≤ byte_len (truncate_to_first_bytes letters 5))
unfolding byte_len width
truncate_to_first_bytes_longest_example =
    truncate_to_first_bytes_longest letters (0x61 ∷ 0xe9 ∷ []) (0x20ac ∷ []) 5 refl (omega arith)
