-- ===== src/LogBuffer.antt =====
-- crates/micromux/src/model/memory.rs: `MemoryLogBuffer`, the bounded tail of a service's log that
-- readers see, with `LogLimit`, `MemoryLogRetention` and `LogLine` of crates/micromux/src/model.rs.
-- The deque is a list, its front first. A `while` loop that pops the front is a recursion on the
-- list: the pop of an empty deque, which breaks the loop, is the case of the empty list.
pub mod Retain
pub mod Evict
pub mod Push
pub mod History
pub mod Read
pub mod Replace
pub mod Ordered
mod Examples
use micromux.Prelude.{
  ℕ, suc, ◌+◌, ◌-◌, max, List, [], ◌∷◌, ◌++◌, Bool, true, false, Option, none, some, ltb, leb, ◌==◌,
  if◌then◌else◌, map_or, length, drop, saturating_add, saturating_sub,
}
use micromux.Text.{Text, byte_len, trim_to_last_bytes}

pub data LogLimit : Type 0 where
  bounded : ℕ → LogLimit
  unbounded : LogLimit

abbrev pub as_option : LogLimit → Option ℕ
as_option (bounded value) = some value
as_option unbounded = none

-- `LogLimit::bounded` clamps zero to one.
unfoldable pub bounded_limit : ℕ → LogLimit
bounded_limit value = bounded (max value 1)

pub record MemoryLogRetention : Type 0 where
  pub max_lines : LogLimit
  pub max_bytes : LogLimit

pub record LogLine : Type 0 where
  pub seq : ℕ
  pub run_generation : ℕ
  pub timestamp_unix_ms : ℕ
  pub line : Text

pub record MemoryLogBuffer : Type 0 where
  pub entries : List LogLine
  pub current_bytes : ℕ
  pub retention : MemoryLogRetention

unfoldable pub new : MemoryLogRetention → MemoryLogBuffer
new retention = record { entries = []; current_bytes = 0; retention = retention }

-- The deque and the byte count that a loop works on.
abbrev pub Held : Type 0
Held = List LogLine × ℕ

-- `while current_bytes.saturating_add(line_len) > max_bytes { pop_front … }`
unfoldable pub evict_bytes : ℕ → ℕ → List LogLine → ℕ → Held
evict_bytes max_bytes line_len [] current = ([], current)
evict_bytes max_bytes line_len (old ∷ entries) current =
    let popped =
      evict_bytes max_bytes line_len entries (saturating_sub current (byte_len old.line)) in
    if ltb max_bytes (saturating_add current line_len) then popped else (old ∷ entries, current)

-- `while self.entries.len() > max_lines { pop_front … }`
unfoldable pub evict_lines : ℕ → List LogLine → ℕ → Held
evict_lines max_lines [] current = ([], current)
evict_lines max_lines (old ∷ entries) current =
    let popped = evict_lines max_lines entries (saturating_sub current (byte_len old.line)) in
    if ltb max_lines (length (old ∷ entries)) then popped else (old ∷ entries, current)

-- The line as it is stored.
unfoldable pub trimmed : LogLimit → LogLine → LogLine
trimmed (bounded max_bytes) l = record l { line = trim_to_last_bytes l.line max_bytes }
trimmed unbounded l = l

abbrev pub make_room : LogLimit → ℕ → List LogLine → ℕ → Held
make_room (bounded max_bytes) line_len entries current =
    evict_bytes max_bytes line_len entries current
make_room unbounded line_len entries current = (entries, current)

abbrev pub cap_lines : LogLimit → List LogLine → ℕ → Held
cap_lines (bounded max_lines) entries current = evict_lines max_lines entries current
cap_lines unbounded entries current = (entries, current)

unfoldable pub push : MemoryLogBuffer → LogLine → MemoryLogBuffer
unfolding trimmed evict_bytes evict_lines
push b l =
    let stored = trimmed b.retention.max_bytes l in
    let line_len = byte_len stored.line in
    let (room, room_bytes) = make_room b.retention.max_bytes line_len b.entries b.current_bytes in
    let (entries, current) =
      cap_lines b.retention.max_lines (room ++ stored ∷ []) (saturating_add room_bytes line_len) in
    record b { entries = entries; current_bytes = current }

unfoldable pub append : MemoryLogBuffer → LogLine → MemoryLogBuffer
append b l = push b l

-- `VecDeque::back`, and the deque after `pop_back`.
abbrev pub back : List LogLine → Option LogLine
back [] = none
back (l ∷ []) = some l
back (l ∷ k ∷ rest) = back (k ∷ rest)

abbrev pub pop_back : List LogLine → List LogLine
pop_back [] = []
pop_back (l ∷ []) = []
pop_back (l ∷ k ∷ rest) = l ∷ pop_back (k ∷ rest)

unfoldable pub replace_last : MemoryLogBuffer → LogLine → MemoryLogBuffer
replace_last b l = elim (back b.entries) [
  | none ↦ b
  | some last ↦
      if last.seq == l.seq
      then push
          (record b {
            entries = pop_back b.entries;
            current_bytes = saturating_sub b.current_bytes (byte_len last.line);
          })
          l
      else b
]

-- `for line in entries { self.push(line) }`
unfoldable pub push_all : MemoryLogBuffer → List LogLine → MemoryLogBuffer
push_all b [] = b
push_all b (l ∷ lines) = push_all (push b l) lines

unfoldable pub reconfigure : MemoryLogBuffer → MemoryLogRetention → MemoryLogBuffer
unfolding push_all
reconfigure b retention =
    push_all (record b { entries = []; current_bytes = 0; retention = retention }) b.entries

-- `while front.seq < next_seq { pop_front … }`
unfoldable pub pop_before : ℕ → List LogLine → ℕ → Held
pop_before next_seq [] current = ([], current)
pop_before next_seq (old ∷ entries) current =
    let popped = pop_before next_seq entries (saturating_sub current (byte_len old.line)) in
    if ltb old.seq next_seq then popped else (old ∷ entries, current)

unfoldable pub clear_before_next_seq : MemoryLogBuffer → ℕ → MemoryLogBuffer
unfolding pop_before
clear_before_next_seq b next_seq =
    let (entries, current) = pop_before next_seq b.entries b.current_bytes in
    record b { entries = entries; current_bytes = current }

unfoldable pub lines : MemoryLogBuffer → Option ℕ → List LogLine
lines b tail =
    let skip = map_or tail 0 (λ n. saturating_sub (length b.entries) n) in drop skip b.entries

unfoldable pub first_retained_seq : MemoryLogBuffer → Option ℕ
first_retained_seq b = elim b.entries [ [] ↦ none | front ∷ _ ↦ some front.seq ]

-- `partition_point(|line| line.seq <= after)`: on a deque that the test partitions, the number of
-- leading lines that pass it.
unfoldable pub partition_point : ℕ → List LogLine → ℕ
partition_point after [] = 0
partition_point after (l ∷ entries) =
    if leb l.seq after then suc (partition_point after entries) else 0

unfoldable pub lines_since : MemoryLogBuffer → ℕ → Option ℕ × List LogLine
unfolding first_retained_seq partition_point
lines_since b after = (first_retained_seq b, drop (partition_point after b.entries) b.entries)
