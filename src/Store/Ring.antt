-- ===== src/Store/Ring.antt =====
-- crates/micromux/src/model.rs: the ring of retained runs, through its eviction and its updates.
use micromux.Prelude.{
  ℕ, suc, ◌≤◌, ◌<◌, ◌≡◌, refl, ap, List, [], ◌∷◌, ◌++◌, Bool, false, Option, none, some, arith, ltb,
  ◌==◌, length, length-append, All, Bool-cases, inl, inr, subst,
}
use micromux.Store.{RunLogEntry}
use micromux.Store.Runs.{evict_runs, find_run, set_run, back_run}

abbrev pub generations : List RunLogEntry → List ℕ
generations [] = []
generations (run ∷ runs) = run.run_generation ∷ generations runs

-- The numbers differ in pairs.
abbrev pub IsDistinct : List ℕ → Type 0
IsDistinct [] = Unit
IsDistinct (g ∷ gs) = All (λ k. (k == g) ≡ false) gs × IsDistinct gs

abbrev pub IsUnder : ℕ → Option ℕ → Type 0
IsUnder next none = Unit
IsUnder next (some seq) = seq < next

-- At most `most` runs, of different generations, whose last numbers are below the next one.
abbrev pub IsRing : (most next : ℕ) → List RunLogEntry → Type 0
IsRing most next runs =
    IsDistinct (generations runs)
    × (length runs ≤ most)
    × All (λ run. IsUnder next run.last_seq) runs

pub set_run-generations :
    (g : ℕ) (new : RunLogEntry) (runs : List RunLogEntry)
    → new.run_generation ≡ g
    → generations (set_run g new runs) ≡ generations runs
unfolding set_run
set_run-generations g new [] h = refl
set_run-generations g new (run ∷ runs) h = elim (Bool-cases (run.run_generation == g)) [
  | inl same ↦ rw same (ap (λ k. k ∷ generations runs) (ground (arith, same, h)))
  | inr other ↦ rw other (ap (◌∷◌ run.run_generation) (set_run-generations g new runs h))
]

pub set_run-length :
    (g : ℕ) (new : RunLogEntry) (runs : List RunLogEntry)
    → length (set_run g new runs) ≡ length runs
unfolding set_run
set_run-length g new [] = refl
set_run-length g new (run ∷ runs) = ground (arith, set_run-length g new runs)

pub set_run-All :
    (P : RunLogEntry → Type 0) (g : ℕ) (new : RunLogEntry) (runs : List RunLogEntry)
    → P new
    → All P runs
    → All P (set_run g new runs)
unfolding set_run
set_run-All P g new [] one h = tt
set_run-All P g new (run ∷ runs) one h = elim (Bool-cases (run.run_generation == g)) [
  | inl same ↦ rw same (one, h.1)
  | inr other ↦ rw other (h.0, set_run-All P g new runs one h.1)
]

pub set_run-IsRing :
    (most next g : ℕ) (new : RunLogEntry) (runs : List RunLogEntry)
    → new.run_generation ≡ g
    → IsUnder next new.last_seq
    → IsRing most next runs
    → IsRing most next (set_run g new runs)
set_run-IsRing most next g new runs same under h = (
  rw (set_run-generations g new runs same) h.0,
  rw (set_run-length g new runs) h.1,
  set_run-All (λ run. IsUnder next run.last_seq) g new runs under h.2,
)

weaken : (low next : ℕ) (o : Option ℕ) → low ≤ next → IsUnder low o → IsUnder next o
weaken low next none le h = tt
weaken low next (some seq) le h = omega arith

weaken-All :
    (low next : ℕ) (runs : List RunLogEntry)
    → low ≤ next
    → All (λ run. IsUnder low run.last_seq) runs
    → All (λ run. IsUnder next run.last_seq) runs
weaken-All low next [] le h = tt
weaken-All low next (run ∷ runs) le h =
    (weaken low next run.last_seq le h.0, weaken-All low next runs le h.1)

pub weaken-IsRing :
    (most low next : ℕ) (runs : List RunLogEntry)
    → low ≤ next
    → IsRing most low runs
    → IsRing most next runs
weaken-IsRing most low next runs le h = (h.0, h.1, weaken-All low next runs le h.2)

-- Eviction leaves a ring.
pub evict_runs-IsRing :
    (most more next : ℕ) (disk : Bool) (runs : List RunLogEntry)
    → IsRing more next runs
    → IsRing most next (evict_runs most disk runs).0
unfolding evict_runs
evict_runs-IsRing most more next disk [] h = (tt, omega arith, tt)
evict_runs-IsRing most more next disk (run ∷ runs) h =
    elim (Bool-cases (ltb most (length (run ∷ runs)))) [
      | inl over ↦ rw over (evict_runs-IsRing most more next disk runs (h.0.1, omega arith, h.2.1))
      | inr fits ↦ rw fits (h.0, ground (arith, fits), h.2)
    ]

back_run-snoc :
    (before : List RunLogEntry) (run : RunLogEntry) → back_run (before ++ run ∷ []) ≡ some run
back_run-snoc [] run = refl
back_run-snoc (first ∷ []) run = refl
back_run-snoc (first ∷ next ∷ before) run = back_run-snoc (next ∷ before) run

-- Where at least one run is kept, the last one is.
pub evict_runs-back_run :
    (most : ℕ) (disk : Bool) (before : List RunLogEntry) (run : RunLogEntry)
    → 1 ≤ most
    → back_run (evict_runs most disk (before ++ run ∷ [])).0 ≡ some run
unfolding evict_runs
evict_runs-back_run most disk [] run h = ground arith
evict_runs-back_run most disk (first ∷ before) run h =
    elim (Bool-cases (ltb most (length (first ∷ (before ++ run ∷ []))))) [
      | inl over ↦ rw over (evict_runs-back_run most disk before run h)
      | inr fits ↦ rw fits (back_run-snoc (first ∷ before) run)
    ]

generations-append :
    (before : List RunLogEntry) (run : RunLogEntry)
    → generations (before ++ run ∷ []) ≡ generations before ++ run.run_generation ∷ []
generations-append [] run = refl
generations-append (first ∷ before) run =
    ap (◌∷◌ first.run_generation) (generations-append before run)

All-snoc : (P : ℕ → Type 0) (gs : List ℕ) (g : ℕ) → All P gs → P g → All P (gs ++ g ∷ [])
All-snoc P [] g h one = (one, tt)
All-snoc P (k ∷ gs) g h one = (h.0, All-snoc P gs g h.1 one)

IsDistinct-snoc :
    (gs : List ℕ) (g : ℕ)
    → All (λ k. (g == k) ≡ false) gs
    → IsDistinct gs
    → IsDistinct (gs ++ g ∷ [])
IsDistinct-snoc [] g h d = (tt, tt)
IsDistinct-snoc (k ∷ gs) g h d =
    (All-snoc (λ j. (j == k) ≡ false) gs g d.0 h.0, IsDistinct-snoc gs g h.1 d.1)

-- The run found is of the generation; where none is found, none is of it.
pub find_run-some :
    (g : ℕ) (run : RunLogEntry) (runs : List RunLogEntry)
    → find_run g runs ≡ some run
    → run.run_generation ≡ g
unfolding find_run
find_run-some g run [] e = cc
find_run-some g run (first ∷ runs) e = ground (arith, find_run-some g run runs)

pub find_run-none :
    (g : ℕ) (runs : List RunLogEntry)
    → find_run g runs ≡ none
    → All (λ k. (g == k) ≡ false) (generations runs)
unfolding find_run
find_run-none g [] e = tt
find_run-none g (first ∷ runs) e = elim (Bool-cases (first.run_generation == g)) [
  | inl same ↦ ground (arith, same, e)
  | inr other ↦ (ground (arith, other), find_run-none g runs (ground (arith, other, e)))
]

All-snoc_run :
    (P : RunLogEntry → Type 0) (runs : List RunLogEntry) (run : RunLogEntry)
    → All P runs
    → P run
    → All P (runs ++ run ∷ [])
All-snoc_run P [] run h one = (one, tt)
All-snoc_run P (first ∷ runs) run h one = (h.0, All-snoc_run P runs run h.1 one)

-- A run of a generation that the ring does not hold goes to its end.
pub snoc-IsRing :
    (most next : ℕ) (runs : List RunLogEntry) (run : RunLogEntry)
    → find_run run.run_generation runs ≡ none
    → IsUnder next run.last_seq
    → IsRing most next runs
    → IsRing (suc most) next (runs ++ run ∷ [])
snoc-IsRing most next runs run absent under h = (
  rw (generations-append runs run) (
      IsDistinct-snoc (generations runs) run.run_generation
        (find_run-none run.run_generation runs absent) h.0),
  omega (arith, length-append runs (run ∷ [])),
  All-snoc_run (λ run. IsUnder next run.last_seq) runs run h.2 under,
)

pub find_run-All :
    (P : RunLogEntry → Type 0) (g : ℕ) (run : RunLogEntry) (runs : List RunLogEntry)
    → find_run g runs ≡ some run
    → All P runs
    → P run
unfolding find_run
find_run-All P g run [] e h = cc
find_run-All P g run (first ∷ runs) e h = elim (Bool-cases (first.run_generation == g)) [
  | inl same ↦ subst P (ground (arith, same, e)) h.0
  | inr other ↦ find_run-All P g run runs (ground (arith, other, e)) h.1
]
