-- ===== src/RunLog/Loop.antt =====
-- crates/micromux/src/model/runlog.rs: the loop that reads the file of a run, without a tail.
use micromux.Prelude.{
  ℕ, zero, suc, ◌≤◌, ◌≡◌, refl, sym, ap, ◌∙◌, subst, List, [], ◌∷◌, ◌++◌, Bool, true, false, not,
  ◌&&◌, Option, none, some, ◌==◌, arith, if◌then◌else◌, length, length-append, append_assoc,
  append-nil, keep, saturating_add, or_cons, Bool-cases, inl, inr, ◌⊎◌,
}
use micromux.LogBuffer.{LogLine}
use micromux.LogBuffer.Replace.{back-snoc, pop_back-snoc}
use micromux.Store.{DiskLogOp}
use micromux.Store.Readers.{take}
use micromux.RunLog.{FileLine, unparsed, parsed, RunLogReadIndex}
use micromux.RunLog.Segment.{scan, push_log_line, is_full, is_zero, line_of, is_behind, overwrite}
use micromux.RunLog.Replay.{replay, Fits, IsLog}

-- The first `limit` lines.
abbrev pub first_of {ℓ} : {A : Type ℓ} → (limit : Option ℕ) → List A → List A
first_of none lines = lines
first_of (some limit) lines = take limit lines

abbrev pub is_shown : (after : Option ℕ) → LogLine → Bool
is_shown after l = not (is_behind after l.seq)

abbrev pub IsWithin : (limit : Option ℕ) → List LogLine → Type 0
IsWithin none lines = Unit
IsWithin (some limit) lines = length lines ≤ limit

module _ {ℓ} {A : Type ℓ} where
  take-append : (xs ys : List A) → take (length xs) (xs ++ ys) ≡ xs
  take-append [] ys = refl
  take-append (x ∷ xs) ys = ap (◌∷◌ x) (take-append xs ys)

  take_all : (n : ℕ) (xs : List A) → length xs ≤ n → take n xs ≡ xs
  take_all zero [] h = refl
  take_all zero (x ∷ xs) h = absurd (omega arith)
  take_all (suc n) [] h = refl
  take_all (suc n) (x ∷ xs) h = ap (◌∷◌ x) (take_all n xs (omega arith))

first_of-within :
    (limit : Option ℕ) (lines : List LogLine) → IsWithin limit lines → first_of limit lines ≡ lines
first_of-within none lines h = refl
first_of-within (some limit) lines h = take_all limit lines h

first_of-full :
    (limit : Option ℕ) (lines more : List LogLine)
    → IsWithin limit lines
    → is_full limit lines ≡ true
    → first_of limit (lines ++ more) ≡ lines
first_of-full none lines more h full = cc
first_of-full (some limit) lines more h full =
    let e : limit ≡ length lines = ground (arith, full, h) in rw e (take-append lines more)

-- What the loop holds: the settled lines, and the current one if it is behind the cursor.
abbrev pub holds : (after : Option ℕ) → List LogLine → Option LogLine → List LogLine
holds after settled current = settled ++ keep (is_shown after) (or_cons current [])

keep-or_cons :
    (p : LogLine → Bool) (current : Option LogLine) (lines : List LogLine)
    → keep p (or_cons current lines) ≡ keep p (or_cons current []) ++ keep p lines
keep-or_cons p none lines = refl
keep-or_cons p (some k) lines = ground arith

self : (n : ℕ) → (n == n) ≡ true
self n = ground arith

not_zero :
    (limit : Option ℕ) (lines : List LogLine) → is_full limit lines ≡ false → is_zero limit ≡ false
not_zero none lines h = refl
not_zero (some limit) lines h = ground (arith, h)

pub op-cases : (op : DiskLogOp) → (op ≡ DiskLogOp.append) ⊎ (op ≡ DiskLogOp.replace_last)
op-cases DiskLogOp.append = inl refl
op-cases DiskLogOp.replace_last = inr refl

-- A replacement over the current line.
overwrite-holds :
    (after limit : Option ℕ) (settled : List LogLine) (current : Option LogLine) (line : LogLine)
    → Fits current DiskLogOp.replace_last line.seq
    → (if is_behind after line.seq
        then holds after settled current
        else overwrite none limit line (holds after settled current))
      ≡ holds after settled (some line)
overwrite-holds after limit settled none line h = absurd h
overwrite-holds after limit settled (some k) line h =
    let same : is_behind after k.seq ≡ is_behind after line.seq = ap (is_behind after) h in
    elim (Bool-cases (is_behind after line.seq)) [
      | inl behind ↦ rw (behind, same ∙ behind)
      | inr ahead ↦
          let equal : (k.seq == line.seq) ≡ true = ground (arith, h) in
          rw (ahead, same ∙ ahead, back-snoc settled k, overwrite)
            (rw (equal, same ∙ ahead, pop_back-snoc settled k))
    ]

-- An append behind the current line, which is then settled.
push-holds :
    (after limit : Option ℕ) (lines : List LogLine) (line : LogLine)
    → is_full limit lines ≡ false
    → (if is_behind after line.seq then lines else push_log_line none limit line lines)
      ≡ holds after lines (some line)
unfolding push_log_line
push-holds after limit lines line room = elim (Bool-cases (is_behind after line.seq)) [
  | inl behind ↦ rw behind (sym (append-nil lines))
  | inr ahead ↦ rw (ahead, not_zero limit lines room, room)
]

IsWithin-next :
    (after limit : Option ℕ) (lines : List LogLine) (line : LogLine)
    → is_full limit lines ≡ false
    → IsWithin limit (holds after lines (some line))
IsWithin-next after none lines line room = tt
IsWithin-next after (some limit) lines line room = elim (Bool-cases (is_behind after line.seq)) [
  | inl behind ↦ rw (behind, append-nil lines) (ground (arith, room))
  | inr ahead ↦ rw ahead (ground (arith, room, length-append lines (line ∷ [])))
]

IsWithin-behind :
    (after limit : Option ℕ) (lines : List LogLine) (line : LogLine)
    → is_behind after line.seq ≡ true
    → IsWithin limit lines
    → IsWithin limit (holds after lines (some line))
IsWithin-behind after limit lines line behind within = rw (behind, append-nil lines) within

IsWithin-replaced :
    (after limit : Option ℕ) (settled : List LogLine) (current : Option LogLine) (line : LogLine)
    → Fits current DiskLogOp.replace_last line.seq
    → IsWithin limit (holds after settled current)
    → IsWithin limit (holds after settled (some line))
IsWithin-replaced after limit settled none line h within = absurd h
IsWithin-replaced after none settled (some k) line h within = tt
IsWithin-replaced after (some limit) settled (some k) line h within =
    let same : is_behind after k.seq ≡ is_behind after line.seq = ap (is_behind after) h in
    elim (Bool-cases (is_behind after line.seq)) [
      | inl behind ↦
          rw (behind, append-nil settled)
            (omega (arith, within, length-append settled (keep (is_shown after) (k ∷ []))))
      | inr ahead ↦
          let held : length (settled ++ k ∷ []) ≤ limit =
            subst (λ b. length (settled ++ (if not b then k ∷ [] else [])) ≤ limit) (same ∙ ahead)
              within in
          rw ahead
            (omega (arith, held, length-append settled (k ∷ []), length-append settled (line ∷ [])))
    ]

never : (b full : Bool) → (b && (full && false)) ≡ false
never b full = ground arith

-- The loop from the lines that it holds, under another name.
scan_from :
    (after limit : Option ℕ) (rest : List FileLine) (offset : ℕ)
    (shown expected result : List LogLine) (index : RunLogReadIndex)
    → shown ≡ expected
    → (scan none after limit rest offset expected index).0 ≡ result
    → (scan none after limit rest offset shown index).0 ≡ result
scan_from after limit rest offset shown expected result index e h = rw e h

-- The loop, from any line on, without a tail: the lines that the rest of the file says, those
-- behind the cursor, the first `limit` of them.
pub scan_lem :
    (after limit : Option ℕ) (lines : List FileLine) (offset : ℕ) (settled : List LogLine)
    (current : Option LogLine) (index : RunLogReadIndex)
    → IsLog current lines
    → IsWithin limit (holds after settled current)
    → (scan none after limit lines offset (holds after settled current) index).0
      ≡ first_of limit (settled ++ keep (is_shown after) (replay current lines))
unfolding scan replay
scan_lem after limit [] offset settled current index log within =
    sym (first_of-within limit _ within)
scan_lem after limit (unparsed size ∷ rest) offset settled current index log within =
    scan_lem after limit rest _ settled current _ log.1 within
scan_lem after limit (parsed size r ∷ rest) offset settled current index log within =
    let line = line_of r in
    let held = holds after settled current in
    let more = keep (is_shown after) (replay (some line) rest) in
    let next = saturating_add offset size in
    elim (op-cases r.op) [
      | inl appended ↦
          rw
            (
              appended,
              keep-or_cons (is_shown after) current (replay (some line) rest),
              ← append_assoc settled (keep (is_shown after) (or_cons current [])) more,
            )
            (elim (Bool-cases (is_behind after r.seq)) [
              | inl behind ↦ rw behind (
                  scan_from after limit rest next held (holds after held (some line)) _ _
                    (rw behind (sym (append-nil held)))
                    (scan_lem after limit rest next held (some line) _ log.2
                      (IsWithin-behind after limit held line behind within)))
              | inr ahead ↦ elim (Bool-cases (is_full limit held)) [
                | inl full ↦ rw (ahead, full) (sym (first_of-full limit held more within full))
                | inr room ↦
                    rw (ahead, room, not_zero limit held room)
                      (scan_from after limit rest next (held ++ line ∷ [])
                        (holds after held (some line)) _ _ (rw ahead)
                        (scan_lem after limit rest next held (some line) _ log.2
                          (IsWithin-next after limit held line room)))
              ]
            ])
      | inr replaced ↦
          let fits = subst (λ op. Fits current op r.seq) replaced log.1 in
          rw (replaced, never (not (is_behind after r.seq)) (is_full limit held))
            (scan_from after limit rest next _ (holds after settled (some line)) _ _
              (overwrite-holds after limit settled current line fits)
              (scan_lem after limit rest next settled (some line) _ log.2
                (IsWithin-replaced after limit settled current line fits within)))
    ]
