-- ===== src/Restart/Backoff.antt =====
-- The delays of a service that keeps failing, in closed form.
use micromux.Prelude.{
  ℕ, zero, suc, ◌*◌, ◌^◌, ◌≤◌, min, leb, leb→le, inl, inr, Bool-cases, ◌≡◌, sym, ap, ◌∙◌, false,
  some, none, arith, List, [], ◌∷◌, length,
}
use native.Mathlib.Nat.{pow-suc, mul_assoc, mul_comm, one-le-pow, mul-le-mul}
use micromux.Restart.{RestartTracker, apply_backoff, restart_backoff_base, restart_backoff_max}

-- The tracker after runs that each end at one of the instants, none of them stable.
unfoldable pub fail_at : List ℕ → RestartTracker → RestartTracker
unfolding apply_backoff
fail_at [] t = t
fail_at (now ∷ later) t = fail_at later (apply_backoff now false t)

gt_of : (x y : ℕ) → leb x y ≡ false → y ≤ x
gt_of x y h = ground arith

-- A factor of at least one may be applied before or after the cap.
cap_twice :
    (x p : ℕ)
    → 1 ≤ p
    → min (min x restart_backoff_max * p) restart_backoff_max ≡ min (x * p) restart_backoff_max
cap_twice x zero h = omega arith
cap_twice x (suc q) h = elim (Bool-cases (leb x restart_backoff_max)) [
  | inl low ↦
      ap (λ (y : ℕ). min (y * suc q) restart_backoff_max)
        (omega (arith, leb→le x restart_backoff_max low))
  | inr high ↦
      let above = gt_of x restart_backoff_max high in
      let least : restart_backoff_max * 1 ≤ x * suc q = mul-le-mul above h in
      let at_cap : min x restart_backoff_max ≡ restart_backoff_max = omega (arith, above) in
      ap (λ (y : ℕ). min (y * suc q) restart_backoff_max) at_cap ∙ omega (arith, least)
]

one_more : (d n : ℕ) → (d * 2) * 2 ^ n ≡ d * 2 ^ suc n
one_more d n =
    mul_assoc d 2 (2 ^ n) ∙ ap (λ (y : ℕ). d * y) (mul_comm 2 (2 ^ n) ∙ sym (pow-suc 2 n))

fail_at-delay :
    (later : List ℕ) (t : RestartTracker) (d : ℕ)
    → t.backoff_delay ≡ some d
    → d ≤ restart_backoff_max
    → (fail_at later t).backoff_delay ≡ some (min (d * 2 ^ length later) restart_backoff_max)
unfolding fail_at
fail_at-delay [] t d e h = rw e (ground arith)
fail_at-delay (now ∷ later) t d e h =
    fail_at-delay later (apply_backoff now false t) (min (d * 2) restart_backoff_max) (ground arith)
      (omega arith)
    ∙ ap some (
        cap_twice (d * 2) (2 ^ length later) (one-le-pow _ _ (omega arith))
        ∙ ap (λ (y : ℕ). min y restart_backoff_max) (one_more d (length later)))

-- For a service that keeps failing and is never up long enough, with no backoff before, the delay
-- after one failure is the base, each further failure doubles it, and it stays at the maximum once
-- it got there.
pub fail_at-doubles :
    (now : ℕ) (later : List ℕ) (t : RestartTracker)
    → t.backoff_delay ≡ none
    → (fail_at (now ∷ later) t).backoff_delay
      ≡ some (min (restart_backoff_base * 2 ^ length later) restart_backoff_max)
unfolding fail_at
fail_at-doubles now later t e =
    fail_at-delay later (apply_backoff now false t) restart_backoff_base (ground arith)
      (omega arith)
