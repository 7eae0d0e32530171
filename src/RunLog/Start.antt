-- ===== src/RunLog/Start.antt =====
-- crates/micromux/src/model/runlog.rs: where a read begins, by the index.
use micromux.Prelude.{
  ℕ, ◌-◌, ◌≤◌, ◌≡◌, refl, sym, ap, ◌∙◌, subst, List, [], ◌∷◌, ◌++◌, true, false, Option, none, some,
  leb, arith, min, map_or, All, Bool-cases, inl, inr, ◌⊎◌,
}
use micromux.RunLog.{
  FileLine, unparsed, parsed, RunLogReadIndex, offset_at_or_before, start_offset_for_read,
}
use micromux.RunLog.Segment.{total_size}
use micromux.RunLog.Replay.{IsLog}
use micromux.RunLog.Split.{IsUpTo, IsPassed, before_append, IsUpTo-IsPassed}
use micromux.RunLog.Indexed.{IsCovered, IsAtMost, IsIndexOf}
use micromux.RunLog.Cached.{total_size-append}

offset_at_or_before_lem :
    (P : ℕ × ℕ → Type 0) (seq : ℕ) (offsets : List (ℕ × ℕ))
    → All P offsets
    → (offset_at_or_before seq offsets ≡ none)
      ⊎ ((known : ℕ × ℕ) × (offset_at_or_before seq offsets ≡ some known.1)
          × (known.0 ≤ seq)
          × P known)
unfolding offset_at_or_before
offset_at_or_before_lem P seq [] h = inl refl
offset_at_or_before_lem P seq ((known, offset) ∷ rest) h = elim (Bool-cases (leb known seq)) [
  | inr above ↦ inl (rw above)
  | inl below ↦ elim (offset_at_or_before_lem P seq rest h.1) [
    | inl last ↦ inr ((known, offset), rw (below, last), ground (arith, below), h.0)
    | inr (later, e, le, p) ↦ inr (later, rw (below, e), le, p)
  ]
]

-- The read begins with the file, or at a line behind which it looks at no record that `Q` rejects.
abbrev pub IsStart :
    (Q : FileLine → Type 0) → List FileLine → (last : Option ℕ) (start : ℕ) → Type 0
IsStart Q segment last start =
    (start ≡ 0)
    ⊎ ((before : List FileLine) × (rest : List FileLine) × (segment ≡ before ++ rest)
        × (total_size before ≡ start)
        × All (IsCovered last) before
        × All Q before)

IsUpTo-IsCovered :
    (seq : ℕ) (last : Option ℕ) (before : List FileLine)
    → IsAtMost seq last
    → All (IsUpTo seq) before
    → All (IsCovered last) before
IsUpTo-IsCovered seq none before h all = absurd h
IsUpTo-IsCovered seq (some most) [] h all = tt
IsUpTo-IsCovered seq (some most) (unparsed n ∷ before) h all =
    (tt, IsUpTo-IsCovered seq (some most) before h all.1)
IsUpTo-IsCovered seq (some most) (parsed n r ∷ before) h all =
    (omega (arith, h, all.0), IsUpTo-IsCovered seq (some most) before h all.1)

IsCovered-IsUpTo :
    (most : ℕ) (before : List FileLine)
    → All (IsCovered (some most)) before
    → All (IsUpTo most) before
IsCovered-IsUpTo most [] h = tt
IsCovered-IsUpTo most (unparsed n ∷ before) h = (tt, IsCovered-IsUpTo most before h.1)
IsCovered-IsUpTo most (parsed n r ∷ before) h = (h.0, IsCovered-IsUpTo most before h.1)

-- A known append of a number up to `seq`, or the beginning of the file.
known-IsStart :
    (Q : FileLine → Type 0) (segment : List FileLine) (seq : ℕ) (index : RunLogReadIndex)
    → IsLog none segment
    → IsIndexOf segment index
    → ((before : List FileLine) (most : ℕ) → most ≤ seq → All (IsUpTo most) before → All Q before)
    → IsStart Q segment index.last_append_seq
        (map_or (offset_at_or_before seq index.append_offsets) 0 (λ offset. offset))
known-IsStart Q segment seq index log known passed =
    elim (offset_at_or_before_lem _ seq index.append_offsets known.1) [
      | inl absent ↦ inl (rw absent)
      | inr (at, e, le, ((before, rest, size, r, split, appended, same, begins), covered)) ↦
          let below : All (IsUpTo at.0) before =
            subst (λ n. All (IsUpTo n) before) same
              (before_append none before rest size r appended (subst (IsLog none) split log)) in
          inr (
            before,
            parsed size r ∷ rest,
            split,
            rw e begins,
            IsUpTo-IsCovered at.0 index.last_append_seq before covered below,
            passed before at.0 le below,
          )
    ]

All-lines : (before : List FileLine) → All {0, 0} (λ l. Unit) before
All-lines [] = tt
All-lines (l ∷ before) = (tt, All-lines before)

min_size :
    (Q : FileLine → Type 0) (segment : List FileLine) (last : Option ℕ) (start : ℕ)
    → IsStart Q segment last start
    → IsStart Q segment last (min start (total_size segment))
min_size Q segment last start (inl e) = inl (omega arith)
min_size Q segment last start (inr (before, rest, split, size, covered, all)) =
    let least : min start (total_size segment) ≡ start =
      omega (arith, size, ap total_size split, total_size-append before rest) in
    inr (before, rest, split, size ∙ sym least, covered, all)

tail_at :
    (segment : List FileLine) (tail : ℕ) (index : RunLogReadIndex) (last : Option ℕ)
    → IsLog none segment
    → IsIndexOf segment index
    → IsStart
        (λ l. Unit)
        segment
        index.last_append_seq
        (elim last [
          | none ↦ 0
          | some last ↦
              min
                (map_or
                  (offset_at_or_before (last - tail) index.append_offsets)
                  0
                  (λ offset. offset))
                (total_size segment)
        ])
tail_at segment tail index none log known = inl refl
tail_at segment tail index (some last) log known =
    min_size (λ l. Unit) segment index.last_append_seq _
      (known-IsStart (λ l. Unit) segment (last - tail) index log known
        (λ before most le below. All-lines before))

-- With a tail, the read begins with a line.
pub tail-IsStart :
    (segment : List FileLine) (tail : ℕ) (after : Option ℕ) (index : RunLogReadIndex)
    → IsLog none segment
    → IsIndexOf segment index
    → IsStart
        (λ l. Unit)
        segment
        index.last_append_seq
        (start_offset_for_read index (some tail) after (total_size segment))
unfolding start_offset_for_read
tail-IsStart segment tail after index log known =
    tail_at segment tail index index.last_append_seq log known

covered-IsPassed :
    (last : Option ℕ) (after : ℕ) (seen : List FileLine)
    → map_or last false (λ seq. leb seq after) ≡ true
    → All (IsCovered last) seen
    → All (IsPassed (some after)) seen
covered-IsPassed none after seen h covered = cc
covered-IsPassed (some most) after seen h covered =
    IsUpTo-IsPassed after most seen (ground (arith, h)) (IsCovered-IsUpTo most seen covered)

-- Without one: no record ahead of the cursor is passed over.
pub cursor-IsStart :
    (segment : List FileLine) (after : Option ℕ) (index : RunLogReadIndex)
    → IsLog none segment
    → IsIndexOf segment index
    → IsStart
        (IsPassed after)
        segment
        index.last_append_seq
        (start_offset_for_read index none after (total_size segment))
unfolding start_offset_for_read
cursor-IsStart segment none index log known = inl refl
cursor-IsStart segment (some after) index log known =
    elim (Bool-cases (map_or index.last_append_seq false (λ seq. leb seq after))) [
      | inl behind ↦
          let (seen, rest, split, size, covered) = known.0 in
          rw behind (
            min_size (IsPassed (some after)) segment index.last_append_seq index.scanned_to (
              inr (
                seen,
                rest,
                split,
                size,
                covered,
                covered-IsPassed index.last_append_seq after seen behind covered,
              )))
      | inr ahead ↦ rw ahead (
          known-IsStart (IsPassed (some after)) segment after index log known
            (λ before most le. IsUpTo-IsPassed after most before le))
    ]
