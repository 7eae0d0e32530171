-- ===== src/Restart/Examples.antt =====
-- A service that fails three times.
use micromux.Prelude.{ℕ, ◌^◌, ◌*◌, min, ◌≡◌, refl, [], ◌∷◌, length, some}
use micromux.Restart.{always, new_tracker, restart_backoff_base, restart_backoff_max}
use micromux.Restart.Backoff.{fail_at, fail_at-doubles}

fail_at-run : (fail_at (0 ∷ 5 ∷ 9 ∷ []) (new_tracker always)).backoff_delay ≡ some 1_000_000_000
unfolding fail_at new_tracker
fail_at-run = refl

fail_at-doubles_example :
    (fail_at (0 ∷ 5 ∷ 9 ∷ []) (new_tracker always)).backoff_delay
    ≡ some (min (restart_backoff_base * 2 ^ length {A = ℕ} (5 ∷ 9 ∷ [])) restart_backoff_max)
unfolding new_tracker
fail_at-doubles_example = fail_at-doubles 0 (5 ∷ 9 ∷ []) (new_tracker always) refl
