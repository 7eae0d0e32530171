-- ===== src/Store/Late.antt =====
-- crates/micromux/src/model.rs: output of a run that is not the latest one.
use micromux.Prelude.{
  ℕ, ◌≡◌, refl, ap, ◌∙◌, List, [], ◌∷◌, Bool, true, false, Option, none, some, arith, ◌==◌, exists,
  Bool-cases, Option-cases, inl, inr,
}
use micromux.Text.{Text}
use micromux.Store.{
  LogUpdateKind, live_snapshot, OutputStream, RunLogEntry, ServiceEntry, RunPath, DiskLogRecord,
}
use micromux.Store.Runs.{ensure_run, find_run, is_of, append_metadata, replace_metadata}
use micromux.Store.Entry.{
  append_log, append_to, place, place_resolved, next_ingest_timestamp, last_seq_of,
}
use micromux.Store.Sink.{enqueue, sink_log}
use micromux.Store.Ring.{generations, set_run-generations, find_run-some}

exists-find_run :
    (g : ℕ) (runs : List RunLogEntry)
    → exists (is_of g) runs ≡ true
    → (run : RunLogEntry) × (find_run g runs ≡ some run)
unfolding find_run
exists-find_run g [] h = cc
exists-find_run g (run ∷ runs) h = elim (Bool-cases (is_of g run)) [
  | inl same ↦ (run, rw same)
  | inr other ↦
      let (found, e) = exists-find_run g runs (ground (arith, other, h)) in (found, rw other e)
]

-- What a reader sees of the entry: its visible log, the generations of its runs and its records.
abbrev pub IsUnseen : ServiceEntry → ServiceEntry → Type 0
IsUnseen e after =
    (after.visible ≡ e.visible)
    × (generations after.runs ≡ generations e.runs)
    × (after.health ≡ e.health)
    × (after.latest_begun_run ≡ e.latest_begun_run)

enqueue-IsUnseen :
    (e : ServiceEntry) (out : ServiceEntry × Option (RunPath × DiskLogRecord))
    → IsUnseen e out.0
    → IsUnseen e (enqueue out)
unfolding enqueue
enqueue-IsUnseen e (after, none) h = h
enqueue-IsUnseen e (after, some (path, written)) h = h

resolved-generation :
    (resolved : Option ℕ) (next : ℕ) (run : RunLogEntry)
    → (place_resolved resolved next run).run.run_generation ≡ run.run_generation
unfolding append_metadata replace_metadata
resolved-generation none next run = refl
resolved-generation (some seq) next run = elim (Option-cases run.last_seq) [
  | inl e ↦ rw (e, replace_metadata)
  | inr (last, e) ↦ rw (e, replace_metadata)
]

place-generation :
    (update : LogUpdateKind) (current : Bool) (visible : Option ℕ) (next : ℕ) (run : RunLogEntry)
    → (place update current visible next run).run.run_generation ≡ run.run_generation
unfolding place append_metadata
place-generation LogUpdateKind.append current visible next run = refl
place-generation (live_snapshot id) current visible next run = resolved-generation _ next run

append_to-IsUnseen :
    (g : ℕ) (update : LogUpdateKind) (line : Text) (disk_line : Option Text) (timestamp : ℕ)
    (visible : Option ℕ) (run : RunLogEntry) (e : ServiceEntry)
    → (g == e.latest_begun_run) ≡ false
    → run.run_generation ≡ g
    → IsUnseen e (append_to g update line disk_line timestamp visible run e).0
unfolding append_to
append_to-IsUnseen g update line disk_line timestamp visible run e late same = rw late (
  refl,
  set_run-generations g _ e.runs (place-generation update false visible e.next_log_seq run ∙ same),
  refl,
  refl,
)

append_log-IsUnseen :
    (g : ℕ) (update : LogUpdateKind) (line : Text) (disk_line : Option Text) (timestamp : ℕ)
    (e : ServiceEntry)
    → (g == e.latest_begun_run) ≡ false
    → IsUnseen e (append_log g update line disk_line timestamp e).0
unfolding append_log ensure_run
append_log-IsUnseen g update line disk_line timestamp e late =
    elim (Bool-cases (exists (is_of g) e.runs)) [
      | inr gone ↦ rw (late, gone) (refl, refl, refl, refl)
      | inl held ↦
          let (run, found) = exists-find_run g e.runs held in
          let ensured : ensure_run g e ≡ (e, some run) = rw (found, ensure_run) in
          rw (late, held, ensured, ap (λ p. p.0) ensured)
            (append_to-IsUnseen g update line disk_line timestamp (last_seq_of e.visible) run e late
              (find_run-some g run e.runs found))
    ]

-- A line that a run other than the latest one writes, of any stream and kind, changes neither the
-- visible log nor which runs are retained, in their order, nor the health records.
pub sink_log-IsUnseen :
    (now g : ℕ) (disk : Bool) (stream : OutputStream) (update : LogUpdateKind) (line : Text)
    (e : ServiceEntry)
    → (g == e.latest_begun_run) ≡ false
    → IsUnseen e (sink_log now g disk stream update line e)
unfolding sink_log next_ingest_timestamp
sink_log-IsUnseen now g disk stream update line e late =
    enqueue-IsUnseen e _ (append_log-IsUnseen g update _ _ _ (next_ingest_timestamp now e).0 late)
