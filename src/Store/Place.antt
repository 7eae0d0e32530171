-- ===== src/Store/Place.antt =====
-- crates/micromux/src/model.rs: the number that a line gets, and the run and the buffer after it.
use micromux.Prelude.{
  ℕ, suc, ◌≤◌, ◌<◌, ◌≡◌, refl, Bool, not, ◌||◌, Option, none, some, arith, Bool-cases, Option-cases,
  inl, inr, u64_max,
}
use micromux.LogBuffer.{LogLine, MemoryLogBuffer}
use micromux.LogBuffer.Ordered.{IsBelow, append-IsBelow, replace_last-IsBelow, weaken-IsBelow}
use micromux.Store.{LogUpdateKind, live_snapshot, DiskLogOp, RunLogEntry}
use micromux.Store.Entry.{Placed, place, place_new, place_resolved, replaceable, same_seq, show}
use micromux.Store.Runs.{append_metadata, replace_metadata}
use micromux.Store.Ring.{IsUnder}

-- How a line is placed: its run stays of its generation, at most one number is taken, an appended
-- line takes the next number, and all numbers stay below the next one.
abbrev pub IsPlaced : (next : ℕ) → RunLogEntry → Placed → Type 0
IsPlaced next run placed =
    (placed.run.run_generation ≡ run.run_generation)
    × IsUnder placed.next_seq placed.run.last_seq
    × (placed.seq < placed.next_seq)
    × (next ≤ placed.next_seq)
    × (placed.next_seq ≤ suc next)
    × ((placed.op ≡ DiskLogOp.append) → placed.seq ≡ next)

place_new_lem :
    (next : ℕ) (run : RunLogEntry) → next < u64_max → IsPlaced next run (place_new next run)
unfolding append_metadata
place_new_lem next run h =
    (refl, ground (arith, h), ground (arith, h), ground (arith, h), ground (arith, h), λ _. refl)

replace_metadata_lem :
    (seq : ℕ) (run : RunLogEntry) → replace_metadata seq run ≡ record run { last_seq = some seq }
unfolding replace_metadata append_metadata
replace_metadata_lem seq run = elim (Option-cases run.last_seq) [
  | inl e ↦ rw (e, replace_metadata)
  | inr (last, e) ↦ rw (e, replace_metadata)
]

place_resolved_lem :
    (resolved : Option ℕ) (next : ℕ) (run : RunLogEntry)
    → next < u64_max
    → IsUnder next resolved
    → IsPlaced next run (place_resolved resolved next run)
place_resolved_lem none next run h under = place_new_lem next run h
place_resolved_lem (some seq) next run h under =
    rw (replace_metadata_lem seq run) (refl, under, under, omega arith, omega arith, λ e. cc)

replaceable-IsUnder :
    (current : Bool) (visible last : Option ℕ) (next : ℕ)
    → IsUnder next last
    → IsUnder next (replaceable current visible last)
replaceable-IsUnder current visible none next under = tt
replaceable-IsUnder current visible (some seq) next under =
    elim (Bool-cases (not current || same_seq visible (some seq))) [
      | inl shown ↦ rw shown under
      | inr hidden ↦ rw hidden tt
    ]

pub place_lem :
    (update : LogUpdateKind) (current : Bool) (visible : Option ℕ) (next : ℕ) (run : RunLogEntry)
    → next < u64_max
    → IsUnder next run.last_seq
    → IsPlaced next run (place update current visible next run)
unfolding place
place_lem LogUpdateKind.append current visible next run h under =
    place_new_lem next (record run { live_snapshot_id = none }) h
place_lem (live_snapshot id) current visible next run h under =
    elim (Bool-cases (same_seq run.live_snapshot_id (some id))) [
      | inl same ↦ rw same (
          place_resolved_lem (replaceable current visible run.last_seq) next run h
            (replaceable-IsUnder current visible run.last_seq next under))
      | inr other ↦ rw other (place_resolved_lem none next run h tt)
    ]

-- The visible log after the line.
pub show-IsBelow :
    (low limit : ℕ) (op : DiskLogOp) (b : MemoryLogBuffer) (l : LogLine)
    → IsBelow low b.entries
    → low ≤ limit
    → l.seq < limit
    → ((op ≡ DiskLogOp.append) → l.seq ≡ low)
    → IsBelow limit (show op l b).entries
show-IsBelow low limit DiskLogOp.append b l h le below new =
    append-IsBelow low limit b l h (omega (arith, new refl)) le below
show-IsBelow low limit DiskLogOp.replace_last b l h le below new =
    replace_last-IsBelow limit b l (weaken-IsBelow low limit b.entries le h)
