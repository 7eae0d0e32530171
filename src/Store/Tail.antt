-- ===== src/Store/Tail.antt =====
-- The ends and beginnings of lists that the bounded histories keep.
use micromux.Prelude.{
  ℕ, zero, suc, ◌+◌, ◌-◌, ◌≤◌, ◌≡◌, refl, sym, ap, ◌∙◌, List, [], ◌∷◌, ◌++◌, arith, length,
  length-append, length-drop, drop, Bool-cases, inl, inr, leb,
}
use micromux.Store.Sink.{make_room_for_one}
use micromux.Store.Readers.{take}

module _ {ℓ} {A : Type ℓ} where
  pub drop_at : (m n : ℕ) (xs : List A) → m ≡ n → drop m xs ≡ drop n xs
  drop_at m n xs e = rw e

  drop-nil : (n : ℕ) → drop {A = A} n [] ≡ []
  drop-nil zero = refl
  drop-nil (suc n) = refl

  make_room_for_one-drop :
      (most : ℕ) (xs : List A)
      → 1 ≤ most
      → make_room_for_one most xs ≡ drop (suc (length xs) - most) xs
  unfolding make_room_for_one
  make_room_for_one-drop most [] h = sym (drop-nil (1 - most))
  make_room_for_one-drop most (x ∷ xs) h = elim (Bool-cases (leb most (length (x ∷ xs)))) [
    | inl full ↦ rw full (
        make_room_for_one-drop most xs h
        ∙ drop_at (suc (suc (length xs) - most)) (suc (suc (length xs)) - most) (x ∷ xs)
            (ground (arith, full)))
    | inr room ↦ rw room (drop_at 0 (suc (suc (length xs)) - most) (x ∷ xs) (ground (arith, room)))
  ]

  drop-drop : (m n : ℕ) (xs : List A) → drop m (drop n xs) ≡ drop (n + m) xs
  drop-drop m zero xs = drop_at m (0 + m) xs (omega arith)
  drop-drop m (suc n) [] = drop-nil m ∙ sym (drop-nil (suc n + m))
  drop-drop m (suc n) (x ∷ xs) =
      drop-drop m n xs ∙ drop_at (suc (n + m)) (suc n + m) (x ∷ xs) (omega arith)

  drop-snoc :
      (n : ℕ) (xs : List A) (x : A) → n ≤ length xs → drop n (xs ++ x ∷ []) ≡ drop n xs ++ x ∷ []
  drop-snoc zero xs x h = refl
  drop-snoc (suc n) [] x h = absurd (omega arith)
  drop-snoc (suc n) (y ∷ xs) x h = drop-snoc n xs x (omega arith)

  -- One more element, with room made for it.
  pub make_room_for_one-last :
      (most : ℕ) (all : List A) (x : A)
      → 1 ≤ most
      → make_room_for_one most (drop (length all - most) all) ++ x ∷ []
        ≡ drop (length (all ++ x ∷ []) - most) (all ++ x ∷ [])
  make_room_for_one-last most all x h =
      let cut = length all - most in
      let kept = drop cut all in
      let more = suc (length kept) - most in
      let once : make_room_for_one most kept ≡ drop (cut + more) all =
        make_room_for_one-drop most kept h ∙ drop-drop more cut all in
      let size = length-drop cut all in
      let long = length-append all (x ∷ []) in
      rw once (
        sym (drop-snoc (cut + more) all x (omega arith))
        ∙ drop_at (cut + more) (length (all ++ x ∷ []) - most) (all ++ x ∷ []) (omega arith))

  pub take_all : (n : ℕ) (xs : List A) → length xs ≤ n → take n xs ≡ xs
  take_all zero [] h = refl
  take_all zero (x ∷ xs) h = absurd (omega arith)
  take_all (suc n) [] h = refl
  take_all (suc n) (x ∷ xs) h = ap (◌∷◌ x) (take_all n xs (omega arith))
