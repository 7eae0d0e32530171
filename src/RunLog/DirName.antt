-- ===== src/RunLog/DirName.antt =====
-- crates/micromux/src/model/runlog.rs: the directory of a service's run logs, by the bytes of its
-- id.
use micromux.Prelude.{
  length, ◌≤◌, ℕ, ◌+◌, ◌-◌, ◌*◌, ◌/◌, ◌%◌, ◌<◌, ◌≡◌, refl, ap, List, [], ◌∷◌, ◌&&◌, Option, none,
  some, ltb, leb, ◌==◌, if◌then◌else◌, All, arith,
}

-- A digit of `{:02x}`.
unfoldable pub hex_digit : ℕ → ℕ
hex_digit n = if ltb n 10 then b'0' + n else b'a' + (n - 10)

unfoldable pub hex_bytes : List ℕ → List ℕ
unfolding hex_digit
hex_bytes [] = []
hex_bytes (byte ∷ bytes) = hex_digit (byte / 16) ∷ hex_digit (byte % 16) ∷ hex_bytes bytes

unfoldable pub service_log_dir_name : List ℕ → List ℕ
unfolding hex_bytes
service_log_dir_name [] = b'_' ∷ []
service_log_dir_name (byte ∷ bytes) = hex_bytes (byte ∷ bytes)

-- The reading of such a name.
unfoldable pub digit_value : ℕ → Option ℕ
digit_value c =
    if leb b'0' c && leb c b'9'
    then some (c - b'0')
    else if leb b'a' c && leb c b'f'
    then some (10 + (c - b'a'))
    else none

abbrev pub byte_of : Option ℕ → Option ℕ → Option (List ℕ) → Option (List ℕ)
byte_of (some high) (some low) (some bytes) = some ((high * 16 + low) ∷ bytes)
byte_of _ _ _ = none

unfoldable pub id_bytes : List ℕ → Option (List ℕ)
unfolding digit_value
id_bytes [] = some []
id_bytes (c ∷ []) = if c == b'_' then some [] else none
id_bytes (high ∷ low ∷ rest) = byte_of (digit_value high) (digit_value low) (id_bytes rest)

digit_value-hex_digit : (n : ℕ) → n < 16 → digit_value (hex_digit n) ≡ some n
unfolding digit_value hex_digit
digit_value-hex_digit n h = ground (arith, h)

id_bytes-hex_bytes :
    (bytes : List ℕ) → All (λ byte. byte < 256) bytes → id_bytes (hex_bytes bytes) ≡ some bytes
unfolding id_bytes hex_bytes
id_bytes-hex_bytes [] h = refl
id_bytes-hex_bytes (byte ∷ bytes) h =
    let whole : byte / 16 * 16 + byte % 16 ≡ byte = omega arith in
    rw
      (
        digit_value-hex_digit (byte / 16) (omega (arith, h.0)),
        digit_value-hex_digit (byte % 16) (omega arith),
        id_bytes-hex_bytes bytes h.1,
      )
      (ap (λ n. some (n ∷ bytes)) whole)

two_digits : (byte : ℕ) (bytes : List ℕ) → 1 ≤ length (hex_bytes (byte ∷ bytes))
unfolding hex_bytes
two_digits byte bytes = omega arith

-- For any bytes of a service id, the empty ones included, the bytes can be read back from the name
-- of its directory, which is not empty. So different services have different directories.
pub id_bytes-service_log_dir_name :
    (bytes : List ℕ)
    → All (λ byte. byte < 256) bytes
    → (id_bytes (service_log_dir_name bytes) ≡ some bytes)
      × (1 ≤ length (service_log_dir_name bytes))
unfolding service_log_dir_name id_bytes
id_bytes-service_log_dir_name [] h = (refl, omega arith)
id_bytes-service_log_dir_name (byte ∷ bytes) h =
    (id_bytes-hex_bytes (byte ∷ bytes) h, two_digits byte bytes)
