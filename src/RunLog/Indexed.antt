-- ===== src/RunLog/Indexed.antt =====
-- crates/micromux/src/model/runlog.rs: what the index of a run's file knows of it, through the
-- loop that reads the file.
use micromux.Prelude.{
  ℕ, zero, suc, ◌≤◌, ◌≡◌, refl, List, [], ◌∷◌, ◌++◌, Option, none, some, ltb, leb, ◌==◌, arith, max,
  drop, map_or, All, Bool-cases, inl, inr,
}
use micromux.Store.{DiskLogOp, DiskLogRecord}
use micromux.RunLog.{
  FileLine, unparsed, parsed, RunLogReadIndex, insert_offset, observe_append, mark_scanned_to,
}
use micromux.RunLog.Segment.{total_size}

-- The record of a line is at most the last append, if there was one.
abbrev pub IsCovered : (last : Option ℕ) → FileLine → Type 0
IsCovered last (unparsed size) = Unit
IsCovered none (parsed size r) = ⊥
IsCovered (some most) (parsed size r) = r.seq ≤ most

abbrev pub IsAtMost : ℕ → (last : Option ℕ) → Type 0
IsAtMost seq none = ⊥
IsAtMost seq (some most) = seq ≤ most

-- An append of the number begins at the offset.
abbrev pub IsAppendAt : List FileLine → (known : ℕ × ℕ) → Type 0
IsAppendAt segment (seq, offset) =
    (before : List FileLine) × (rest : List FileLine) × (size : ℕ) × (r : DiskLogRecord) × (segment
      ≡ before ++ parsed size r ∷ rest)
    × (r.op ≡ DiskLogOp.append)
    × (r.seq ≡ seq)
    × (total_size before ≡ offset)

-- The lines up to an offset, whose records the last append covers.
abbrev pub IsScanned : List FileLine → (last : Option ℕ) (scanned_to : ℕ) → Type 0
IsScanned segment last scanned_to =
    (seen : List FileLine) × (rest : List FileLine) × (segment ≡ seen ++ rest)
    × (total_size seen ≡ scanned_to)
    × All (IsCovered last) seen

-- The index knows some beginning of the file, and appends where they begin.
abbrev pub IsIndexOf : List FileLine → RunLogReadIndex → Type 0
IsIndexOf segment index =
    IsScanned segment index.last_append_seq index.scanned_to
    × All (λ known. IsAppendAt segment known × IsAtMost known.0 index.last_append_seq)
        index.append_offsets

module _ {ℓ κ} {A : Type ℓ} (P : A → Type κ) where
  All-drop : (n : ℕ) (xs : List A) → All P xs → All P (drop n xs)
  All-drop zero xs h = h
  All-drop (suc n) [] h = tt
  All-drop (suc n) (x ∷ xs) h = All-drop n xs h.1

  pub All-snoc : (xs : List A) (x : A) → All P xs → P x → All P (xs ++ x ∷ [])
  All-snoc [] x h one = (one, tt)
  All-snoc (y ∷ xs) x h one = (h.0, All-snoc xs x h.1 one)

  pub All-map {μ} : (Q : A → Type μ) (xs : List A) → ((x : A) → P x → Q x) → All P xs → All Q xs
  All-map Q [] f h = tt
  All-map Q (x ∷ xs) f h = (f x h.0, All-map Q xs f h.1)

insert_offset-All :
    (P : ℕ × ℕ → Type 0) (seq offset : ℕ) (offsets : List (ℕ × ℕ))
    → P (seq, offset)
    → All P offsets
    → All P (insert_offset seq offset offsets)
unfolding insert_offset
insert_offset-All P seq offset [] one h = (one, tt)
insert_offset-All P seq offset ((known, at) ∷ rest) one h = elim (Bool-cases (ltb known seq)) [
  | inl below ↦ rw below (h.0, insert_offset-All P seq offset rest one h.1)
  | inr above ↦ elim (Bool-cases (known == seq)) [
    | inl same ↦ rw (above, same) h
    | inr other ↦ rw (above, other) (one, (h.0, h.1))
  ]
]

-- The last append after one more.
abbrev pub raised : ℕ → Option ℕ → Option ℕ
raised seq last = some (map_or last seq (λ last. max last seq))

pub IsCovered-raised :
    (seq : ℕ) (last : Option ℕ) (l : FileLine) → IsCovered last l → IsCovered (raised seq last) l
IsCovered-raised seq last (unparsed size) h = tt
IsCovered-raised seq none (parsed size r) h = absurd h
IsCovered-raised seq (some most) (parsed size r) h = omega arith

IsAtMost-raised : (seq n : ℕ) (last : Option ℕ) → IsAtMost n last → IsAtMost n (raised seq last)
IsAtMost-raised seq n none h = absurd h
IsAtMost-raised seq n (some most) h = omega arith

pub IsAtMost-self : (seq : ℕ) (last : Option ℕ) → IsAtMost seq (raised seq last)
IsAtMost-self seq none = omega arith
IsAtMost-self seq (some most) = omega arith

pub observe_append-IsIndexOf :
    (segment : List FileLine) (seq offset : ℕ) (index : RunLogReadIndex)
    → IsAppendAt segment (seq, offset)
    → IsIndexOf segment index
    → IsIndexOf segment (observe_append seq offset index)
unfolding observe_append
observe_append-IsIndexOf segment seq offset index at ((seen, rest, split, size, covered), known) =
    let last = index.last_append_seq in
    (
      (
        seen,
        rest,
        split,
        size,
        All-map (IsCovered last) (IsCovered (raised seq last)) seen (IsCovered-raised seq last)
            covered,
      ),
      All-drop _ _ _ (
          insert_offset-All _ seq offset index.append_offsets (at, IsAtMost-self seq last)
            (All-map _ _ index.append_offsets (λ k h. (h.0, IsAtMost-raised seq k.0 last h.1))
              known)),
    )

pub mark_scanned_to-IsIndexOf :
    (segment before rest : List FileLine) (index : RunLogReadIndex)
    → segment ≡ before ++ rest
    → All (IsCovered index.last_append_seq) before
    → IsIndexOf segment index
    → IsIndexOf segment (mark_scanned_to (total_size before) index)
unfolding mark_scanned_to
mark_scanned_to-IsIndexOf segment before rest index split covered h =
    elim (Bool-cases (leb (total_size before) index.scanned_to)) [
      | inl past ↦
          let e : max index.scanned_to (total_size before) ≡ index.scanned_to =
            ground (arith, past) in
          rw e h
      | inr new ↦
          let e : max index.scanned_to (total_size before) ≡ total_size before =
            ground (arith, new) in
          rw e ((before, rest, split, refl, covered), h.1)
    ]
