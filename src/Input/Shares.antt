-- ===== src/Input/Shares.antt =====
-- crates/micromux/src/scheduler/input.rs: the map of the services' shares, whose keys differ.
use micromux.Prelude.{
  ℕ, ◌≡◌, refl, List, [], ◌∷◌, true, false, none, arith, if◌then◌else◌, map_or, lookup, insert,
  remove, lookup-insert, text_eq, text_eq_iff_lem, text_eq_back, Bool-cases, inl, inr, String, ap,
  sym, subst, ◌∙◌, ◌==◌,
}
use micromux.Model.{ServiceId}
use micromux.Input.{set_share}

abbrev pub Shares : Type 0
Shares = List (ServiceId × ℕ)

abbrev pub share : ServiceId → Shares → ℕ
share id m = map_or (lookup id m) 0 (λ n. n)

-- No key stands twice.
abbrev pub IsKeyed : Shares → Type 0
IsKeyed [] = Unit
IsKeyed ((key, n) ∷ rest) = (lookup key rest ≡ none) × IsKeyed rest

pub share-insert :
    (id other : ServiceId) (n : ℕ) (m : Shares)
    → share other (insert id n m) ≡ (if text_eq id other then n else share other m)
share-insert id other n m =
    rw (lookup-insert id other n m)
      (elim (Bool-cases (text_eq id other)) [ inl same ↦ rw same | inr differs ↦ rw differs ])

not_back : (s t : String) → text_eq s t ≡ false → text_eq t s ≡ false
not_back s t h = elim (Bool-cases (text_eq t s)) [
  | inl same ↦ ground (arith, text_eq_back s t same, h)
  | inr differs ↦ differs
]

pub insert-IsKeyed : (id : ServiceId) (n : ℕ) (m : Shares) → IsKeyed m → IsKeyed (insert id n m)
unfolding insert lookup
insert-IsKeyed id n [] h = (refl, tt)
insert-IsKeyed id n ((key, k) ∷ rest) h = elim (Bool-cases (text_eq key id)) [
  | inl same ↦ rw same h
  | inr differs ↦
      rw differs (
        rw (lookup-insert id key n rest, not_back key id differs) h.0,
        insert-IsKeyed id n rest h.1,
      )
]

-- A text equal to another is equal to the same texts.
equal_left : (a b c : String) → text_eq a b ≡ true → text_eq a c ≡ text_eq b c
equal_left a b c h = ap (λ s. text_eq s c) (text_eq_iff_lem a b h)

pub lookup-remove :
    (id other : ServiceId) (m : Shares)
    → IsKeyed m
    → lookup other (remove id m) ≡ (if text_eq id other then none else lookup other m)
unfolding lookup remove
lookup-remove id other [] h = elim (Bool-cases (text_eq id other)) [
  | inl same ↦ rw same
  | inr differs ↦ rw differs
]
lookup-remove id other ((key, k) ∷ rest) h = elim (Bool-cases (text_eq key id)) [
  | inl removed ↦
      let e = equal_left key id other removed in
      elim (Bool-cases (text_eq id other)) [
        | inl same ↦
            let absent : lookup other rest ≡ none =
              subst (λ s. lookup s rest ≡ none)
                (text_eq_iff_lem key id removed ∙ text_eq_iff_lem id other same) h.0 in
            rw (removed, same, absent)
        | inr differs ↦ rw (removed, differs, e ∙ differs)
      ]
  | inr kept ↦ elim (Bool-cases (text_eq key other)) [
    | inl found ↦
        let differs : text_eq id other ≡ false =
          ap (λ s. text_eq id s) (sym (text_eq_iff_lem key other found)) ∙ not_back key id kept in
        rw (kept, differs, found)
    | inr other_key ↦ rw (kept, other_key) (lookup-remove id other rest h.1)
  ]
]

pub remove-IsKeyed : (id : ServiceId) (m : Shares) → IsKeyed m → IsKeyed (remove id m)
unfolding remove
remove-IsKeyed id [] h = tt
remove-IsKeyed id ((key, k) ∷ rest) h = elim (Bool-cases (text_eq key id)) [
  | inl same ↦ rw same h.1
  | inr differs ↦
      rw differs (
        rw (lookup-remove id key rest h.1, not_back key id differs) h.0,
        remove-IsKeyed id rest h.1,
      )
]

pub set_share-IsKeyed :
    (id : ServiceId) (left : ℕ) (m : Shares) → IsKeyed m → IsKeyed (set_share id left m)
set_share-IsKeyed id left m h = elim (Bool-cases (left == 0)) [
  | inl empty ↦ rw empty (remove-IsKeyed id m h)
  | inr some_left ↦ rw some_left (insert-IsKeyed id left m h)
]

pub share-set_share :
    (id other : ServiceId) (left : ℕ) (m : Shares)
    → IsKeyed m
    → share other (set_share id left m) ≡ (if text_eq id other then left else share other m)
share-set_share id other left m h = elim (Bool-cases (left == 0)) [
  | inl empty ↦ elim (Bool-cases (text_eq id other)) [
    | inl same ↦ rw (empty, lookup-remove id other m h, same) (ground (arith, empty))
    | inr differs ↦ rw (empty, lookup-remove id other m h, differs)
  ]
  | inr some_left ↦ rw some_left (share-insert id other left m)
]
