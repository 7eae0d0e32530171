-- ===== src/Lib.antt =====
-- micromux, a terminal process supervisor: the core of its scheduler and of its session model.
--
-- A session runs the services of a configuration. The scheduler keeps one runtime per service
-- (crates/micromux/src/scheduler.rs), which commands, process events and timers change; after each
-- change it starts every service that may start (crates/micromux/src/scheduler/schedule.rs) and
-- writes a snapshot of what it changed to the session model, which readers see
-- (crates/micromux/src/model.rs). The model keeps a bounded tail of every service's log
-- (crates/micromux/src/model/memory.rs), and a disk worker writes the full log of each retained run to
-- a file (crates/micromux/src/model/disk.rs), which readers scan with an index
-- (crates/micromux/src/model/runlog.rs).
--
-- The files:
-- - Prelude: tests, lists, saturating words and maps from texts, shared by all.
-- - Text: the cuts of a string to a number of bytes. A string is the list of its characters, and its
--   length is the sum of their UTF-8 widths.
-- - LogBuffer: `MemoryLogBuffer`. Retain is the abstract view, Evict the loops that pop the front,
--   Push and History what writes do, Read and Replace the other operations.
-- - Restart: `RestartTracker`. Backoff is the closed form of the delays, Budget ties a tracker to its
--   policy.
-- - Model, Service: the data that the scheduler reads and publishes.
-- - Store: the entry that the session model keeps per service (crates/micromux/src/model.rs). Runs is
--   the ring of retained runs, Entry the operations on logs and runs, Sink `RunSink`, HealthLog its
--   health records, Writer `SessionModelWriter`, Readers `SessionModelReader`. Ring, Place, Sound,
--   Limits and Histories prove the invariant, Tail, Timeline and EventHistory treat the events, Late
--   the lines of earlier runs.
-- - RunLog: the file of a run. Segment and Consistent are the reads of
--   crates/micromux/src/model/runlog.rs, Disk and Queue what crates/micromux/src/model/disk.rs writes.
--   Replay is what a file says; Loop, Split, Indexed, Cached, Start, Delivered and Exact treat a read
--   with an index that may fail, Paging a page by page one, Rotation the retries, Fitted and Written the writer; DirName is
--   the name of a service's directory.
-- - Input: the budget of terminal input (crates/micromux/src/scheduler/input.rs). Shares is the map of
--   the services' shares, Reserved and Merged what the budget counts.
-- - Runtime: `ServiceRuntime` with its methods (Methods, Finish), the input drop throttle (Drops,
--   Reports), the projection to a snapshot (Projection, Shown), and the invariant (Invariant).
-- - Session: the runtimes with the calls made on the model's writer, and the writes that handlers make.
-- - Schedule: the start checks, Start one start, Loop the loop. Visit says what one visit does to the
--   runtimes; Termination, Valid, Startable, Settled, Returns, Gate and Requests prove the rest.
-- - Events: `ProcessEvent` and `handle_event`. Effect says what an event does to
--   the fields of a runtime, Concerning, Handled and Effected prove it.
-- - Timers: the deadlines of the main loop (`next_*`) and the handlers of those that have come. Over
--   is the runtime of a service whose lease is over.
-- - Commands: disable, and stop and renew of dynamic services.
-- - Scheduler: the state of the main loop, the arms of its `select` as steps, and what they reach.
--
-- A `&mut` argument is passed in and returned. `HashMap` and `IndexMap` are association lists. An
-- instant is a number of nanoseconds, and a `Clock` holds what one operation reads of the clocks: a
-- handler, and a pass of the scheduling loop, reads each clock once. Saturating and checked operations
-- are those of 64-bit words, written out. The scheduling loop runs on fuel: one more pass than there
-- are services without a process is enough.
--
-- What the operating system answers to a spawn is a parameter: a pid and a log reader, or an error.
-- In the scheduler's model, the writer of the session model is the list of the calls made on it, oldest
-- first. A read of a run's file meets at most three attempts, as in the code; the loops over its lines
-- are recursions on them. Of the file system, the outcomes of the calls are parameters, as is the
-- length of an encoded record; a damaged line of a file is one that parses to no record. The texts of
-- events and diagnostics are left out, since they repeat the fields in words; so are the PTY handles,
-- to which the scheduler only passes input and sizes on.
--
-- Not modelled: the other commands and the reloads of the scheduler's main loop, the spool
-- directories of disk logs and the threads of their worker, PTYs, health check processes, configuration parsing, the control
-- protocol and the user interfaces.
pub mod Prelude
pub mod Text
pub mod LogBuffer
pub mod Restart
pub mod Model
pub mod Service
pub mod Store
pub mod RunLog
pub mod Input
pub mod Runtime
pub mod Session
pub mod Schedule
pub mod Events
pub mod Timers
pub mod Commands
pub mod Scheduler
