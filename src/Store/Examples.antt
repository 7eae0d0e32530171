-- ===== src/Store/Examples.antt =====
-- The entry of a service with two runs, of which two lines and two runs are kept.
use micromux.Prelude.{ℕ, ◌≡◌, refl, List, [], ◌∷◌, false, none, some, arith, keep, ltb}
use micromux.Text.{Text}
use micromux.LogBuffer.{bounded, unbounded, lines_since, first_retained_seq}
use micromux.Restart.{always}
use micromux.Model.{OriginKind, Desired, Execution, ServiceSnapshot, ServiceEvent, ServiceEventKind}
use micromux.Store.{
  LogUpdateKind, live_snapshot, OutputStream, LogRetention, ServiceEntry, new_entry,
}
use micromux.Store.Readers.{entry_events, is_after}
use micromux.Store.Sink.{sink_log}
use micromux.Store.Runs.{ensure_run}
use micromux.Store.Entry.{begin_entry_run}
use micromux.Store.Sound.{IsSound}
use micromux.Store.Histories.{EntryOp, apply, apply_all, apply_all-IsSound, lines_since-apply_all}
use micromux.Store.EventHistory.{entry_events-apply_all}
use micromux.Store.Timeline.{recorded}
use micromux.Store.Late.{IsUnseen, sink_log-IsUnseen}

abbrev snapshot_of_run : ℕ → ServiceSnapshot
snapshot_of_run run_generation = record {
  id = "web";
  name = "web";
  origin = OriginKind.configured;
  dynamic = none;
  retired = none;
  retired_at_unix_ms = none;
  desired = Desired.enabled;
  execution = Execution.running;
  health = none;
  run_generation = run_generation;
  pid = some 42;
  started_at_unix_ms = none;
  advertised_ports = [];
  healthcheck_configured = false;
  healthcheck = none;
  stop_grace_period = 5_000_000_000;
  config_stale = false;
  restart_policy = always;
  restart_state = none;
  last_exit_code = none;
  command = "run" ∷ [];
  working_dir = none;
  uptime = none;
}

abbrev two_lines : LogRetention
two_lines = record {
  memory = record { max_lines = bounded 2; max_bytes = unbounded };
  retained_runs = 2;
}

abbrev ready : ServiceEvent
ready = record {
  seq = 0;
  at_unix_ms = 5;
  run_generation = 1;
  kind = ServiceEventKind.healthy;
  exit_code = none;
  pid = none;
  delay_ms = none;
  blocked_on = none;
}

abbrev said : (run_generation : ℕ) → Text → EntryOp
said run_generation line =
    EntryOp.log 7 run_generation false OutputStream.stdout LogUpdateKind.append line

abbrev operations : List EntryOp
operations =
    EntryOp.begin_run 1
    ∷ said 1 (b'a' ∷ [])
    ∷ EntryOp.emit 8 false ready []
    ∷ EntryOp.begin_run 2
    ∷ said 2 (b'b' ∷ [])
    ∷ said 1 (b'c' ∷ [])
    ∷ EntryOp.log 9 2 false OutputStream.stderr (live_snapshot 3) (b'd' ∷ [])
    ∷ EntryOp.emit 9 false ready (b'!' ∷ [])
    ∷ []

apply_all-IsSound_example :
    IsSound (apply_all operations (new_entry (snapshot_of_run 0) two_lines none false))
apply_all-IsSound_example =
    apply_all-IsSound operations (snapshot_of_run 0) two_lines none false (omega arith)

lines_since-apply_all_example :
    let b = (apply_all operations (new_entry (snapshot_of_run 0) two_lines none false)).visible in
    lines_since b 2 ≡ (first_retained_seq b, keep (λ l. ltb 2 l.seq) b.entries)
lines_since-apply_all_example =
    lines_since-apply_all operations (snapshot_of_run 0) two_lines none false 2 (omega arith)

entry_events-apply_all_example :
    (entry_events
      (some 1)
      none
      (apply_all operations (new_entry (snapshot_of_run 0) two_lines none false)).events).0
    ≡ keep (is_after (some 1)) (recorded 1 operations)
unfolding entry_events apply_all apply new_entry begin_entry_run ensure_run
entry_events-apply_all_example =
    entry_events-apply_all operations (snapshot_of_run 0) two_lines none false (some 1) none
      (omega arith) refl

-- The entry behind these operations, of which the second run is the latest.
abbrev late_entry : ServiceEntry
late_entry = record (new_entry (snapshot_of_run 2) two_lines none false) {
  runs =
      (record { run_generation = 1; path = none; last_seq = some 1; live_snapshot_id = none })
      ∷ (record { run_generation = 2; path = none; last_seq = some 2; live_snapshot_id = none })
      ∷ [];
  next_log_seq = 3;
}

sink_log-IsUnseen_example :
    IsUnseen late_entry
      (sink_log 9 1 false OutputStream.stdout LogUpdateKind.append (b'z' ∷ []) late_entry)
unfolding new_entry
sink_log-IsUnseen_example =
    sink_log-IsUnseen 9 1 false OutputStream.stdout LogUpdateKind.append (b'z' ∷ []) late_entry refl
