-- ===== src/Store/Runs.antt =====
-- crates/micromux/src/model.rs: the ring of a service's retained runs, with the methods of
-- `RunLogEntry` of crates/micromux/src/model/runlog.rs.
use micromux.Prelude.{
  ℕ, List, [], ◌∷◌, ◌++◌, Bool, true, Option, none, some, ltb, ◌==◌, if◌then◌else◌, length, String,
}
use micromux.Model.{ServiceId}
use micromux.Store.{RunPath, RunLogEntry, DiskCall, begin, remove, ServiceEntry}

abbrev path_of : Option String → ServiceId → ℕ → Option RunPath
path_of none service_id run_generation = none
path_of (some spool_dir) service_id run_generation =
    some
      (record { spool_dir = spool_dir; service_id = service_id; run_generation = run_generation })

abbrev pub begins : Option RunPath → (disk : Bool) → List DiskCall
begins (some path) true = begin path ∷ []
begins _ _ = []

-- `RunLogEntry::new`, and what it sends to the disk worker.
unfoldable pub new_run :
    ServiceId
    → (run_generation : ℕ) (spool_dir : Option String) (disk : Bool) → RunLogEntry × List DiskCall
new_run service_id run_generation spool_dir disk =
    let path = path_of spool_dir service_id run_generation in
    (
      record {
        run_generation = run_generation;
        path = path;
        last_seq = none;
        live_snapshot_id = none;
      },
      begins path disk,
    )

unfoldable pub append_metadata : ℕ → RunLogEntry → RunLogEntry
append_metadata seq run = record run { last_seq = some seq }

unfoldable pub replace_metadata : ℕ → RunLogEntry → RunLogEntry
unfolding append_metadata
replace_metadata seq run = elim run.last_seq [
  | none ↦ append_metadata seq run
  | some last ↦ record run { last_seq = some seq }
]

abbrev pub removals : Option RunPath → (disk : Bool) → List DiskCall
removals (some path) true = remove path ∷ []
removals _ _ = []

-- `enqueue_remove`: the path is taken out in any case.
unfoldable pub enqueue_remove : (disk : Bool) → RunLogEntry → RunLogEntry × List DiskCall
enqueue_remove disk run = (record run { path = none }, removals run.path disk)

-- `while self.runs.len() > retained_runs { pop_front … }`
unfoldable pub evict_runs :
    (retained_runs : ℕ) (disk : Bool) → List RunLogEntry → List RunLogEntry × List DiskCall
unfolding enqueue_remove
evict_runs retained_runs disk [] = ([], [])
evict_runs retained_runs disk (run ∷ runs) =
    let (kept, calls) = evict_runs retained_runs disk runs in
    if ltb retained_runs (length (run ∷ runs))
    then (kept, (enqueue_remove disk run).1 ++ calls)
    else (run ∷ runs, [])

abbrev pub is_of : ℕ → RunLogEntry → Bool
is_of run_generation run = run.run_generation == run_generation

-- `runs.iter().find(…)`, the first run of the generation.
unfoldable pub find_run : ℕ → List RunLogEntry → Option RunLogEntry
find_run run_generation [] = none
find_run run_generation (run ∷ runs) =
    if is_of run_generation run then some run else find_run run_generation runs

-- What is done through the `&mut RunLogEntry` of the generation.
unfoldable pub set_run : ℕ → RunLogEntry → List RunLogEntry → List RunLogEntry
set_run run_generation new [] = []
set_run run_generation new (run ∷ runs) =
    if is_of run_generation run then new ∷ runs else run ∷ set_run run_generation new runs

abbrev pub evicted : List RunLogEntry × List DiskCall → ServiceEntry → ServiceEntry
evicted (runs, calls) e = record e { runs = runs; sent = e.sent ++ calls }

abbrev pub back_run : List RunLogEntry → Option RunLogEntry
back_run [] = none
back_run (run ∷ []) = some run
back_run (run ∷ next ∷ runs) = back_run (next ∷ runs)

-- The entry and the run that the caller goes on with: the one of the generation, or the last.
unfoldable pub ensure_run : (run_generation : ℕ) → ServiceEntry → ServiceEntry × Option RunLogEntry
unfolding find_run evict_runs new_run
ensure_run run_generation e = elim (find_run run_generation e.runs) [
  | some run ↦ (e, some run)
  | none ↦
      let (run, begun) = new_run e.snapshot.id run_generation e.spool_dir e.disk in
      let kept = evict_runs e.log_retention.retained_runs e.disk (e.runs ++ run ∷ []) in
      (evicted kept (record e { sent = e.sent ++ begun }), back_run kept.0)
]
