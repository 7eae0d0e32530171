-- ===== src/RunLog/Paging.antt =====
-- crates/micromux/src/model/runlog.rs: reading the log of a run page by page.
use micromux.Prelude.{
  ℕ, zero, suc, ◌≤◌, ◌<◌, ◌≡◌, refl, sym, ap, ◌∙◌, subst, List, [], ◌∷◌, ◌++◌, true, false, Option,
  none, some, leb, arith, if◌then◌else◌, keep, All, Bool-cases, inl, inr, ◌⊎◌,
}
use micromux.LogBuffer.{LogLine, back}
use micromux.LogBuffer.Ordered.{All-back}
use micromux.LogBuffer.Read.{IsOrdered}
use micromux.Store.Readers.{take}
use micromux.RunLog.{FileLine, unparsed, parsed, RunLogReadIndex}
use micromux.RunLog.Segment.{line_of, is_append, is_behind, read_run_log_segment}
use micromux.RunLog.Replay.{IsLog, Fits, replay}
use micromux.RunLog.Loop.{is_shown, op-cases}
use micromux.RunLog.Indexed.{IsIndexOf}
use micromux.RunLog.Exact.{read_run_log_segment_lem}

-- From a number on, in order.
abbrev IsFrom : ℕ → List LogLine → Type 0
IsFrom low lines = All (λ l. low ≤ l.seq) lines × IsOrdered lines

raise :
    (low high : ℕ) (lines : List LogLine)
    → low < high
    → All (λ l. high ≤ l.seq) lines
    → All (λ l. low < l.seq) lines
raise low high [] h all = tt
raise low high (l ∷ lines) h all = (omega (arith, all.0), raise low high lines h all.1)

lower :
    (low high : ℕ) (lines : List LogLine)
    → low ≤ high
    → All (λ l. high ≤ l.seq) lines
    → All (λ l. low ≤ l.seq) lines
lower low high [] h all = tt
lower low high (l ∷ lines) h all = (omega (arith, all.0), lower low high lines h all.1)

current_first :
    (k : LogLine) (seq : ℕ) (further : List LogLine)
    → k.seq < seq
    → IsFrom seq further
    → IsFrom k.seq (k ∷ further)
current_first k seq further h from = (
  (omega arith, lower k.seq seq further (omega arith) from.0),
  (raise k.seq seq further h from.0, from.1),
)

replay-IsFrom :
    (k : LogLine) (lines : List FileLine)
    → IsLog (some k) lines
    → IsFrom k.seq (replay (some k) lines)
unfolding replay
replay-IsFrom k [] log = ((omega arith, tt), (tt, tt))
replay-IsFrom k (unparsed size ∷ rest) log = replay-IsFrom k rest log.1
replay-IsFrom k (parsed size r ∷ rest) log =
    let from = replay-IsFrom (line_of r) rest log.2 in
    elim (op-cases r.op) [
      | inl appended ↦
          let fits : k.seq < r.seq = subst (λ op. Fits (some k) op r.seq) appended log.1 in
          rw (ap is_append appended)
            (current_first k r.seq (replay (some (line_of r)) rest) fits from)
      | inr replaced ↦
          let fits : k.seq ≡ r.seq = subst (λ op. Fits (some k) op r.seq) replaced log.1 in
          rw (ap is_append replaced)
            (subst (λ n. IsFrom n (replay (some (line_of r)) rest)) (sym fits) from)
    ]

-- What a log says is in the order of its numbers.
pub replay-IsOrdered : (lines : List FileLine) → IsLog none lines → IsOrdered (replay none lines)
unfolding replay
replay-IsOrdered [] log = tt
replay-IsOrdered (unparsed size ∷ rest) log = replay-IsOrdered rest log.1
replay-IsOrdered (parsed size r ∷ rest) log = elim (Bool-cases (is_append r.op)) [
  | inl appended ↦ rw appended (replay-IsFrom (line_of r) rest log.2).1
  | inr replaced ↦ rw replaced (replay-IsFrom (line_of r) rest log.2).1
]

some_line : {k l : LogLine} → some k ≡ some l → k ≡ l
some_line e = cc

-- Behind the last line of the beginning of an ordered list stand the others.
keep_above :
    (low : ℕ) (lines : List LogLine)
    → All (λ l. low < l.seq) lines
    → keep (is_shown (some low)) lines ≡ lines
keep_above low [] h = refl
keep_above low (l ∷ lines) h = ground (arith, keep_above low lines h.1, h.0)

All-take :
    (P : LogLine → Type 0) (n : ℕ) (lines : List LogLine) → All P lines → All P (take n lines)
All-take P zero lines h = tt
All-take P (suc n) [] h = tt
All-take P (suc n) (l ∷ lines) h = (h.0, All-take P n lines h.1)

back_cons :
    (l last : LogLine) (lines : List LogLine)
    → back (l ∷ lines) ≡ some last
    → (lines ≡ []) × (l ≡ last) ⊎ (back lines ≡ some last)
back_cons l last [] e = inl (refl, some_line e)
back_cons l last (k ∷ lines) e = inr e

page_rest :
    (n : ℕ) (lines : List LogLine) (last : LogLine)
    → IsOrdered lines
    → back (take n lines) ≡ some last
    → take n lines ++ keep (is_shown (some last.seq)) lines ≡ lines
page_rest zero lines last h e = cc
page_rest (suc n) [] last h e = cc
page_rest (suc n) (l ∷ lines) last h e = elim (back_cons l last (take n lines) e) [
  | inl (empty, same) ↦
      let at : l.seq ≡ last.seq = ap (λ l. l.seq) same in
      let old : leb l.seq last.seq ≡ true = ground (arith, at) in
      let rest =
        subst (λ n. keep (is_shown (some n)) lines ≡ lines) at (keep_above l.seq lines h.0) in
      rw (empty, old, rest)
  | inr later ↦
      let above : l.seq < last.seq =
        All-back (λ k. l.seq < k.seq) (take n lines) last
          (All-take (λ k. l.seq < k.seq) n lines h.0) later in
      let old : leb l.seq last.seq ≡ true = ground (arith, above) in
      rw old (ap (◌∷◌ l) (page_rest n lines last h.1 later))
]

behind_later :
    (after : Option ℕ) (seq last : ℕ)
    → is_behind after seq ≡ true
    → is_behind after last ≡ false
    → leb seq last ≡ true
behind_later none seq last old ahead = cc
behind_later (some after) seq last old ahead = ground (arith, old, ahead)

All-keep :
    (after : Option ℕ) (lines : List LogLine)
    → All (λ l. is_behind after l.seq ≡ false) (keep (is_shown after) lines)
All-keep after [] = tt
All-keep after (l ∷ lines) = elim (Bool-cases (is_behind after l.seq)) [
  | inl old ↦ rw old (All-keep after lines)
  | inr new ↦ rw new (new, All-keep after lines)
]

-- A later cursor looks at what an earlier one does.
keep_later :
    (after : Option ℕ) (last : ℕ) (lines : List LogLine)
    → is_behind after last ≡ false
    → keep (is_shown (some last)) (keep (is_shown after) lines) ≡ keep (is_shown (some last)) lines
keep_later after last [] ahead = refl
keep_later after last (l ∷ lines) ahead = elim (Bool-cases (is_behind after l.seq)) [
  | inl old ↦
      let older = behind_later after l.seq last old ahead in
      rw (old, older) (keep_later after last lines ahead)
  | inr new ↦
      rw new (
        ap (λ xs. if is_shown (some last) l then l ∷ xs else xs)
          (keep_later after last lines ahead))
]

All-keep_of :
    (P : LogLine → Type 0) (after : Option ℕ) (lines : List LogLine)
    → All P lines
    → All P (keep (is_shown after) lines)
All-keep_of P after [] h = tt
All-keep_of P after (l ∷ lines) h = elim (Bool-cases (is_behind after l.seq)) [
  | inl old ↦ rw old (All-keep_of P after lines h.1)
  | inr new ↦ rw new (h.0, All-keep_of P after lines h.1)
]

keep-IsOrdered :
    (after : Option ℕ) (lines : List LogLine)
    → IsOrdered lines
    → IsOrdered (keep (is_shown after) lines)
keep-IsOrdered after [] h = tt
keep-IsOrdered after (l ∷ lines) h = elim (Bool-cases (is_behind after l.seq)) [
  | inl old ↦ rw old (keep-IsOrdered after lines h.1)
  | inr new ↦
      rw new (All-keep_of (λ k. l.seq < k.seq) after lines h.0, keep-IsOrdered after lines h.1)
]

-- Where the readable segment is a log that the indexes know parts of, and a page with a limit is
-- not empty: it and what a read behind the number of its last line returns are together what a
-- read without a limit returns, so that a reader who goes on from page to page misses no line and
-- meets none twice.
pub read_run_log_segment-pages :
    (segment : List FileLine) (after : Option ℕ) (limit : ℕ) (index later : RunLogReadIndex)
    (last : LogLine)
    → IsLog none segment
    → IsIndexOf segment index
    → IsIndexOf segment later
    → back (read_run_log_segment segment none after (some limit) index).0 ≡ some last
    → (read_run_log_segment segment none after (some limit) index).0
        ++ (read_run_log_segment segment none (some last.seq) none later).0
      ≡ (read_run_log_segment segment none after none index).0
read_run_log_segment-pages segment after limit index later last log known known_later e =
    let lines = replay none segment in
    let all = keep (is_shown after) lines in
    let page = read_run_log_segment_lem segment after (some limit) index log known in
    let ends : back (take limit all) ≡ some last = ap back (sym page) ∙ e in
    let ahead =
      All-back (λ l. is_behind after l.seq ≡ false) (take limit all) last
        (All-take (λ l. is_behind after l.seq ≡ false) limit all (All-keep after lines)) ends in
    rw
      (
        page,
        read_run_log_segment_lem segment (some last.seq) none later log known_later,
        read_run_log_segment_lem segment after none index log known,
        ← keep_later after last.seq lines ahead,
      )
      (page_rest limit all last (keep-IsOrdered after lines (replay-IsOrdered segment log)) ends)
