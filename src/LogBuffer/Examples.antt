-- ===== src/LogBuffer/Examples.antt =====
-- A buffer of at most two lines and five bytes.
use micromux.Prelude.{
  ℕ, ◌≤◌, ◌≡◌, refl, List, [], ◌∷◌, ◌++◌, true, arith, keep, ltb, leb, length, if◌then◌else◌, ◌==◌,
}
use micromux.Text.{byte_len, width, trim_to_last_bytes}
use micromux.LogBuffer.{
  bounded, MemoryLogRetention, LogLine, MemoryLogBuffer, new, push, trimmed, push_all, reconfigure,
  replace_last, clear_before_next_seq, lines_since, first_retained_seq,
}
use micromux.LogBuffer.Retain.{total_bytes, fits, retain}
use micromux.LogBuffer.Push.{IsAccounted}
use micromux.LogBuffer.History.{stored, push_all_longest, reconfigure-entries}
use micromux.LogBuffer.Read.{lines_since_lem, clear_before_next_seq_lem}
use micromux.LogBuffer.Replace.{replace_last_lem}

abbrev small : MemoryLogRetention
small = record { max_lines = bounded 2; max_bytes = bounded 5 }

abbrev smaller : MemoryLogRetention
smaller = record { max_lines = bounded 3; max_bytes = bounded 2 }

abbrev numbered : ℕ → List ℕ → LogLine
numbered n text = record { seq = n; run_generation = 1; timestamp_unix_ms = 0; line = text }

abbrev one : LogLine
one = numbered 1 (0x61 ∷ 0x62 ∷ 0x63 ∷ [])

abbrev two : LogLine
two = numbered 2 (0xe9 ∷ [])

abbrev three : LogLine
three = numbered 3 (0x64 ∷ [])

abbrev written : List LogLine
written = one ∷ two ∷ three ∷ []

abbrev held : MemoryLogBuffer
held = record { entries = two ∷ three ∷ []; current_bytes = 3; retention = small }

push_all-run : push_all (new small) written ≡ held
unfolding push_all push new byte_len trim_to_last_bytes
push_all-run = refl

push_all_longest_example :
    let b = push_all (new small) written in
    ((evicted : List LogLine) × (stored small.max_bytes written ≡ evicted ++ b.entries))
    × (fits small b.entries ≡ true)
    × (b.current_bytes ≡ total_bytes b.entries)
    × (length (three ∷ []) ≤ length b.entries)
unfolding total_bytes byte_len width trimmed fits trim_to_last_bytes
push_all_longest_example =
    push_all_longest small written (one ∷ two ∷ []) (three ∷ []) (omega arith) refl refl

reconfigure-entries_example :
    ((reconfigure held smaller).entries ≡ retain smaller (stored smaller.max_bytes held.entries))
    × IsAccounted (reconfigure held smaller)
unfolding total_bytes byte_len width trimmed trim_to_last_bytes
reconfigure-entries_example = reconfigure-entries held smaller (omega arith)

lines_since_lem_example :
    lines_since held 2 ≡ (first_retained_seq held, keep (λ k. ltb 2 k.seq) held.entries)
lines_since_lem_example = lines_since_lem held 2 ((omega arith, tt), (tt, tt))

clear_before_next_seq_lem_example :
    let cleared = clear_before_next_seq held 3 in
    (cleared.entries ≡ keep (λ k. leb 3 k.seq) held.entries)
    × IsAccounted cleared
    × (cleared.retention ≡ held.retention)
unfolding total_bytes byte_len width
clear_before_next_seq_lem_example =
    clear_before_next_seq_lem held 3 ((omega arith, tt), (tt, tt)) refl

abbrev rewritten : LogLine
rewritten = numbered 3 (0x64 ∷ 0x65 ∷ 0x66 ∷ 0x67 ∷ [])

replace_last_lem_example :
    let kept = trimmed held.retention.max_bytes rewritten in
    ((replace_last held rewritten).entries ≡ (
      if three.seq == rewritten.seq
      then retain held.retention ((two ∷ []) ++ kept ∷ [])
      else held.entries))
    × IsAccounted (replace_last held rewritten)
unfolding total_bytes byte_len width trimmed trim_to_last_bytes
replace_last_lem_example = replace_last_lem held rewritten (two ∷ []) three refl refl (omega arith)
