-- ===== src/Store/Sound.antt =====
-- crates/micromux/src/model.rs: the entry's operations on its logs and runs keep it well formed.
use micromux.Prelude.{
  ℕ, suc, ◌≤◌, ◌<◌, ◌≡◌, refl, ap, ◌∙◌, List, [], ◌∷◌, ◌++◌, Bool, true, false, not, ◌&&◌, Option,
  some, arith, ◌==◌, if◌then◌else◌, length, All, exists, Bool-cases, Option-cases, inl, inr,
  u64_max,
}
use micromux.Text.{Text}
use micromux.LogBuffer.{LogLine, MemoryLogBuffer, new}
use micromux.LogBuffer.Ordered.{
  IsBelow, weaken-IsBelow, clear_before_next_seq-IsBelow, reconfigure-IsBelow,
}
use micromux.Model.{ServiceSnapshot}
use micromux.Store.{
  LogUpdateKind, DiskLogOp, RunLogEntry, ServiceEntry, HealthAttempt, DiskCall, LogRetention,
  new_entry, health_history, health_output_max_lines, event_history,
}
use micromux.Store.Runs.{ensure_run, find_run, evict_runs, new_run, is_of}
use micromux.Store.Entry.{
  append_log, append_to, show, last_seq_of, place, begin_entry_run, no_live, clear_visible_logs,
  last_without_live, reconfigure_log_retention,
}
use micromux.Store.Ring.{
  IsRing, IsUnder, generations, set_run-IsRing, weaken-IsRing, evict_runs-IsRing,
  evict_runs-back_run, snoc-IsRing, find_run-some, find_run-All,
}
use micromux.Store.Place.{place_lem, show-IsBelow}

-- The health records are of one run and within the limits.
abbrev pub IsHistory : (run_generation : ℕ) → List HealthAttempt → Type 0
IsHistory run_generation attempts =
    (length attempts ≤ health_history)
    × All (λ h. (h.run_generation ≡ run_generation) × (length h.output ≤ health_output_max_lines))
        attempts

-- The numbers of the visible lines grow and are below the next one, the retained runs are a ring
-- of at most the configured number, which is not zero, the health records are of the latest run,
-- and no more events are held than the limit.
abbrev pub IsSound : ServiceEntry → Type 0
IsSound e =
    IsBelow e.next_log_seq e.visible.entries
    × IsRing e.log_retention.retained_runs e.next_log_seq e.runs
    × (1 ≤ e.log_retention.retained_runs)
    × IsHistory e.latest_begun_run e.health
    × (length e.events ≤ event_history)

pub new_entry-IsSound :
    (snapshot : ServiceSnapshot) (retention : LogRetention) (spool_dir : Option _) (disk : Bool)
    → IsSound (new_entry snapshot retention spool_dir disk)
unfolding new_entry new
new_entry-IsSound snapshot retention spool_dir disk =
    ((tt, tt), (tt, omega arith, tt), omega arith, (omega arith, tt), omega arith)

-- What `ensure_run` gives: the run of the generation, in a ring, and nothing else is changed.
abbrev pub IsEnsured : (run_generation : ℕ) → ServiceEntry → Type 0
IsEnsured run_generation e =
    (runs : List RunLogEntry) × (calls : List DiskCall) × (run : RunLogEntry) × (ensure_run
        run_generation e
      ≡ (record e { runs = runs; sent = calls }, some run))
    × IsRing e.log_retention.retained_runs e.next_log_seq runs
    × (run.run_generation ≡ run_generation)
    × IsUnder e.next_log_seq run.last_seq

pub ensure_run_lem :
    (run_generation : ℕ) (e : ServiceEntry)
    → 1 ≤ e.log_retention.retained_runs
    → IsRing e.log_retention.retained_runs e.next_log_seq e.runs
    → IsEnsured run_generation e
unfolding ensure_run new_run
ensure_run_lem g e most h = elim (Option-cases (find_run g e.runs)) [
  | inr (run, found) ↦ (
    e.runs,
    e.sent,
    run,
    rw (found, ensure_run),
    h,
    find_run-some g run e.runs found,
    find_run-All (λ run. IsUnder e.next_log_seq run.last_seq) g run e.runs found h.2,
  )
  | inl absent ↦
      let (run, begun) = new_run e.snapshot.id g e.spool_dir e.disk in
      let kept = evict_runs e.log_retention.retained_runs e.disk (e.runs ++ run ∷ []) in
      (
        kept.0,
        (e.sent ++ begun) ++ kept.1,
        run,
        rw (absent, ensure_run)
            (rw (evict_runs-back_run e.log_retention.retained_runs e.disk e.runs run most)),
        evict_runs-IsRing e.log_retention.retained_runs _ e.next_log_seq e.disk (e.runs ++ run ∷ [])
            (snoc-IsRing e.log_retention.retained_runs e.next_log_seq e.runs run absent tt h),
        refl,
        tt,
      )
]

-- One number at most is taken.
abbrev pub IsNext : ServiceEntry → ServiceEntry → Type 0
IsNext e after = IsSound after × (after.next_log_seq ≤ suc e.next_log_seq)

shown-IsBelow :
    (current : Bool) (low limit : ℕ) (op : DiskLogOp) (b : MemoryLogBuffer) (l : LogLine)
    → IsBelow low b.entries
    → low ≤ limit
    → l.seq < limit
    → ((op ≡ DiskLogOp.append) → l.seq ≡ low)
    → IsBelow limit (if current then show op l b else b).entries
shown-IsBelow true low limit op b l h le below new = show-IsBelow low limit op b l h le below new
shown-IsBelow false low limit op b l h le below new = weaken-IsBelow low limit b.entries le h

append_to-IsSound :
    (g : ℕ) (update : LogUpdateKind) (line : Text) (disk_line : Option Text) (timestamp : ℕ)
    (visible : Option ℕ) (run : RunLogEntry) (e : ServiceEntry)
    → e.next_log_seq < u64_max
    → IsSound e
    → run.run_generation ≡ g
    → IsUnder e.next_log_seq run.last_seq
    → IsNext e (append_to g update line disk_line timestamp visible run e).0
unfolding append_to
append_to-IsSound g update line disk_line timestamp visible run e h sound same under =
    let current = g == e.latest_begun_run in
    let placed = place update current visible e.next_log_seq run in
    let (gen, last, seq, low, high, new) =
      place_lem update current visible e.next_log_seq run h under in
    let l : LogLine = record {
      seq = placed.seq;
      run_generation = g;
      timestamp_unix_ms = timestamp;
      line = line;
    } in
    let runs =
      set_run-IsRing e.log_retention.retained_runs placed.next_seq g placed.run e.runs (gen ∙ same)
        last
        (weaken-IsRing e.log_retention.retained_runs e.next_log_seq placed.next_seq e.runs low
          sound.1) in
    (
      (
        shown-IsBelow current e.next_log_seq placed.next_seq placed.op e.visible l sound.0 low seq
            new,
        runs,
        sound.2,
        sound.3,
        sound.4,
      ),
      high,
    )

pub append_log-IsSound :
    (g : ℕ) (update : LogUpdateKind) (line : Text) (disk_line : Option Text) (timestamp : ℕ)
    (e : ServiceEntry)
    → e.next_log_seq < u64_max
    → IsSound e
    → IsNext e (append_log g update line disk_line timestamp e).0
unfolding append_log
append_log-IsSound g update line disk_line timestamp e h sound =
    elim (Bool-cases (not (g == e.latest_begun_run) && not (exists (is_of g) e.runs))) [
      | inl late ↦ rw late (sound, omega arith)
      | inr kept ↦
          let (runs, calls, run, out, ring, gen, under) = ensure_run_lem g e sound.2 sound.1 in
          rw (kept, out, ap (λ p. p.0) out)
            (append_to-IsSound g update line disk_line timestamp (last_seq_of e.visible) run
              (record e { runs = runs; sent = calls }) h (sound.0, ring, sound.2, sound.3, sound.4)
              gen under)
    ]

pub begin_entry_run-IsSound :
    (g : ℕ) (e : ServiceEntry) → IsSound e → IsNext e (begin_entry_run g e)
unfolding begin_entry_run
begin_entry_run-IsSound g e sound =
    let begun = record e { latest_begun_run = g } in
    let (runs, calls, run, out, ring, gen, under) = ensure_run_lem g begun sound.2 sound.1 in
    rw out (
      (
        sound.0,
        set_run-IsRing e.log_retention.retained_runs e.next_log_seq g (no_live run) runs gen under
            ring,
        sound.2,
        (omega arith, tt),
        sound.4,
      ),
      omega arith,
    )

last_without_live-generations :
    (runs : List RunLogEntry) → generations (last_without_live runs) ≡ generations runs
last_without_live-generations [] = refl
last_without_live-generations (run ∷ []) = refl
last_without_live-generations (run ∷ next ∷ runs) =
    ap (◌∷◌ run.run_generation) (last_without_live-generations (next ∷ runs))

last_without_live-length : (runs : List RunLogEntry) → length (last_without_live runs) ≡ length runs
last_without_live-length [] = refl
last_without_live-length (run ∷ []) = refl
last_without_live-length (run ∷ next ∷ runs) = ap suc (last_without_live-length (next ∷ runs))

last_without_live-IsUnder :
    (limit : ℕ) (runs : List RunLogEntry)
    → All (λ run. IsUnder limit run.last_seq) runs
    → All (λ run. IsUnder limit run.last_seq) (last_without_live runs)
last_without_live-IsUnder limit [] h = tt
last_without_live-IsUnder limit (run ∷ []) h = h
last_without_live-IsUnder limit (run ∷ next ∷ runs) h =
    (h.0, last_without_live-IsUnder limit (next ∷ runs) h.1)

pub clear_visible_logs-IsSound : (e : ServiceEntry) → IsSound e → IsSound (clear_visible_logs e)
unfolding clear_visible_logs
clear_visible_logs-IsSound e sound = (
  clear_before_next_seq-IsBelow e.next_log_seq e.next_log_seq e.visible sound.0,
  (
    rw (last_without_live-generations e.runs) sound.1.0,
    rw (last_without_live-length e.runs) sound.1.1,
    last_without_live-IsUnder e.next_log_seq e.runs sound.1.2,
  ),
  sound.2,
  sound.3,
  sound.4,
)

pub reconfigure_log_retention-IsSound :
    (retention : LogRetention) (e : ServiceEntry)
    → IsSound e
    → IsSound (reconfigure_log_retention retention e)
unfolding reconfigure_log_retention
reconfigure_log_retention-IsSound retention e sound = (
  reconfigure-IsBelow e.next_log_seq e.visible retention.memory sound.0,
  evict_runs-IsRing _ e.log_retention.retained_runs e.next_log_seq e.disk e.runs sound.1,
  omega arith,
  sound.3,
  sound.4,
)
