-- ===== src/Runtime/Reports.antt =====
-- What the reports of discarded input add up to.
use micromux.Prelude.{
  ℕ, ◌+◌, ◌≤◌, ◌<◌, ◌≡◌, List, [], ◌∷◌, Bool, true, false, Option, none, some, arith, u64_max,
}
use micromux.Runtime.Drops.{InputDropThrottle, record_drop, take_due}

-- A discarded write at an instant, or the look for a due report at one.
pub data DropEvent : Type 0 where
  dropped : (now : ℕ) → DropEvent
  looked : (now : ℕ) → DropEvent

-- The drops that an answer reports: one now, or the held back ones.
abbrev now_reported : Bool → ℕ
now_reported true = 1
now_reported false = 0

abbrev due_reported : Option ℕ → ℕ
due_reported none = 0
due_reported (some count) = count

-- The throttle after the events, and the number of drops reported on the way.
unfoldable pub run_throttle : List DropEvent → InputDropThrottle → InputDropThrottle × ℕ
unfolding record_drop take_due
run_throttle [] t = (t, 0)
run_throttle (dropped now ∷ later) t =
    let (t', at_once) = record_drop now t in
    let (t'', reported) = run_throttle later t' in (t'', now_reported at_once + reported)
run_throttle (looked now ∷ later) t =
    let (t', due) = take_due now t in
    let (t'', reported) = run_throttle later t' in (t'', due_reported due + reported)

abbrev pub drops_of : List DropEvent → ℕ
drops_of [] = 0
drops_of (dropped now ∷ later) = 1 + drops_of later
drops_of (looked now ∷ later) = drops_of later

drop_step :
    (now : ℕ) (t : InputDropThrottle)
    → t.suppressed < u64_max
    → now_reported (record_drop now t).1 + (record_drop now t).0.suppressed ≡ t.suppressed + 1
unfolding record_drop
drop_step now t h = ground arith

look_step :
    (now : ℕ) (t : InputDropThrottle)
    → due_reported (take_due now t).1 + (take_due now t).0.suppressed ≡ t.suppressed
unfolding take_due
look_step now t = ground arith

-- Every discarded write is reported once or still held back for the next report, over any
-- sequence of drops and looks, when the held back count stays below the range of `u64`.
pub run_throttle_conserves :
    (events : List DropEvent) (t : InputDropThrottle)
    → t.suppressed + drops_of events ≤ u64_max
    → (run_throttle events t).1 + (run_throttle events t).0.suppressed
      ≡ t.suppressed + drops_of events
unfolding run_throttle
run_throttle_conserves [] t h = omega arith
run_throttle_conserves (dropped now ∷ later) t h =
    let step = drop_step now t (omega arith) in
    let rest = run_throttle_conserves later (record_drop now t).0 (omega arith) in omega arith
run_throttle_conserves (looked now ∷ later) t h =
    let step = look_step now t in
    let rest = run_throttle_conserves later (take_due now t).0 (omega arith) in omega arith
