-- ===== src/Store/Limits.antt =====
-- crates/micromux/src/model.rs: the bounded histories of an entry, and its health records.
use micromux.Prelude.{
  ℕ, suc, ◌≤◌, ◌≡◌, refl, List, [], ◌∷◌, ◌++◌, true, none, arith, ◌==◌, length, length-append, All,
  Bool-cases, inl, inr, leb,
}
use micromux.Text.{Text, truncate_to_first_bytes}
use micromux.Store.{
  OutputStream, HealthAttempt, HealthResult, ServiceEntry, health_history, health_output_max_lines,
  model_string_max_bytes,
}
use micromux.Store.Sink.{make_room_for_one}
use micromux.Store.HealthLog.{
  start_health, append_health, finish_health, change_attempt, if_latest, is_attempt,
}
use micromux.Store.Sound.{IsSound, IsNext, IsHistory}

module _ {ℓ κ} {A : Type ℓ} (P : A → Type κ) where
  make_room_for_one-All : (most : ℕ) (xs : List A) → All P xs → All P (make_room_for_one most xs)
  unfolding make_room_for_one
  make_room_for_one-All most [] h = tt
  make_room_for_one-All most (x ∷ xs) h = elim (Bool-cases (leb most (length (x ∷ xs)))) [
    | inl full ↦ rw full (make_room_for_one-All most xs h.1)
    | inr room ↦ rw room h
  ]

  snoc-All : (xs : List A) (x : A) → All P xs → P x → All P (xs ++ x ∷ [])
  snoc-All [] x h one = (one, tt)
  snoc-All (y ∷ xs) x h one = (h.0, snoc-All xs x h.1 one)

pub make_room_for_one-length {ℓ} :
    {A : Type ℓ} (most : ℕ) (xs : List A)
    → 1 ≤ most
    → suc (length (make_room_for_one most xs)) ≤ most
unfolding make_room_for_one
make_room_for_one-length most [] h = h
make_room_for_one-length most (x ∷ xs) h = elim (Bool-cases (leb most (length (x ∷ xs)))) [
  | inl full ↦ rw full (make_room_for_one-length most xs h)
  | inr room ↦ rw room (ground (arith, room))
]

pub make_room_for_one-snoc-length {ℓ} :
    {A : Type ℓ} (most : ℕ) (xs : List A) (x : A)
    → 1 ≤ most
    → length (make_room_for_one most xs ++ x ∷ []) ≤ most
make_room_for_one-snoc-length most xs x h =
    omega (
      arith,
      make_room_for_one-length most xs h,
      length-append (make_room_for_one most xs) (x ∷ []),
    )

-- A health record within the limits.
abbrev IsAttempt : (run_generation : ℕ) → HealthAttempt → Type 0
IsAttempt g h = (h.run_generation ≡ g) × (length h.output ≤ health_output_max_lines)

change_attempt-All :
    (g run_generation attempt : ℕ) (change : HealthAttempt → HealthAttempt)
    (hs : List HealthAttempt)
    → ((h : HealthAttempt) → IsAttempt g h → IsAttempt g (change h))
    → All (IsAttempt g) hs
    → All (IsAttempt g) (change_attempt run_generation attempt change hs)
unfolding change_attempt
change_attempt-All g r a change [] kept h = tt
change_attempt-All g r a change (x ∷ hs) kept h = elim (Bool-cases (is_attempt r a x)) [
  | inl found ↦ rw found (kept x h.0, h.1)
  | inr other ↦ rw other (h.0, change_attempt-All g r a change hs kept h.1)
]

change_attempt-length :
    (run_generation attempt : ℕ) (change : HealthAttempt → HealthAttempt) (hs : List HealthAttempt)
    → length (change_attempt run_generation attempt change hs) ≡ length hs
unfolding change_attempt
change_attempt-length r a change [] = refl
change_attempt-length r a change (x ∷ hs) = ground (arith, change_attempt-length r a change hs)

-- A change of the health records alone.
if_latest-IsSound :
    (g : ℕ) (change : List HealthAttempt → List HealthAttempt) (e : ServiceEntry)
    → IsSound e
    → ((e.latest_begun_run == g) ≡ true → IsHistory e.latest_begun_run (change e.health))
    → IsNext e (if_latest g (λ e. record e { health = change e.health }) e)
if_latest-IsSound g change e sound h = elim (Bool-cases (e.latest_begun_run == g)) [
  | inl latest ↦ rw latest ((sound.0, sound.1, sound.2, h latest, sound.4), omega arith)
  | inr late ↦ rw late (sound, omega arith)
]

pub start_health-IsSound :
    (g attempt : ℕ) (command : Text) (e : ServiceEntry)
    → IsSound e
    → IsNext e (start_health g attempt command e)
unfolding start_health
start_health-IsSound g attempt command e sound =
    let started : HealthAttempt = record {
      run_generation = g;
      attempt = attempt;
      command = truncate_to_first_bytes command model_string_max_bytes;
      output = [];
      result = none;
    } in
    if_latest-IsSound g (λ hs. make_room_for_one health_history hs ++ started ∷ []) e sound
      (λ latest. (
        make_room_for_one-snoc-length health_history e.health started (omega arith),
        snoc-All (IsAttempt e.latest_begun_run) (make_room_for_one health_history e.health) started
            (make_room_for_one-All (IsAttempt e.latest_begun_run) health_history e.health sound.3.1)
            (ground (arith, latest), omega arith),
      ))

change_health-IsSound :
    (g attempt : ℕ) (change : HealthAttempt → HealthAttempt) (e : ServiceEntry)
    → IsSound e
    → ((h : HealthAttempt)
        → IsAttempt e.latest_begun_run h
        → IsAttempt e.latest_begun_run (change h))
    → IsNext e (if_latest g (λ e. record e { health = change_attempt g attempt change e.health }) e)
change_health-IsSound g attempt change e sound kept =
    if_latest-IsSound g (change_attempt g attempt change) e sound (λ latest. (
      omega (arith, change_attempt-length g attempt change e.health, sound.3.0),
      change_attempt-All e.latest_begun_run g attempt change e.health kept sound.3.1,
    ))

pub append_health-IsSound :
    (g attempt : ℕ) (stream : OutputStream) (line : Text) (e : ServiceEntry)
    → IsSound e
    → IsNext e (append_health g attempt stream line e)
unfolding append_health
append_health-IsSound g attempt stream line e sound =
    change_health-IsSound g attempt _ e sound (λ h ok.
      (ok.0, make_room_for_one-snoc-length health_output_max_lines h.output _ (omega arith)))

pub finish_health-IsSound :
    (g attempt : ℕ) (result : HealthResult) (e : ServiceEntry)
    → IsSound e
    → IsNext e (finish_health g attempt result e)
unfolding finish_health
finish_health-IsSound g attempt result e sound =
    change_health-IsSound g attempt _ e sound (λ h ok. ok)
