-- ===== src/Store/Timeline.antt =====
-- crates/micromux/src/model.rs: the timeline of an entry through any sequence of operations.
use micromux.Prelude.{
  ℕ, suc, ◌+◌, ◌-◌, ◌≤◌, ◌<◌, ◌≡◌, refl, subst, ◌∙◌, List, [], ◌∷◌, ◌++◌, Bool, true, false, not,
  ◌&&◌, Option, none, some, arith, ◌==◌, if◌then◌else◌, length, length-append, drop, Bool-cases,
  Option-cases, inl, inr, u64_max, exists, append_assoc, append-nil,
}
use micromux.Text.{Text, truncate_to_first_bytes}
use micromux.Model.{ServiceEvent}
use micromux.Store.{
  LogUpdateKind, StoredEvent, HealthAttempt, ServiceEntry, RunLogEntry, RunPath, DiskLogRecord,
  event_history, model_string_max_bytes,
}
use micromux.Store.Runs.{ensure_run, find_run, is_of}
use micromux.Store.Entry.{
  append_log, append_to, append_banner, begun_in, begin_entry_run, clear_visible_logs,
  reconfigure_log_retention, next_ingest_timestamp,
}
use micromux.Store.Sink.{enqueue, sink_log}
use micromux.Store.HealthLog.{start_health, append_health, finish_health}
use micromux.Store.Writer.{push_event, with_banner, record_event, log_banner}
use micromux.Store.Histories.{EntryOp, apply, apply_all}
use micromux.Store.Tail.{make_room_for_one-last}

-- The last 256 events.
abbrev pub last_events : List StoredEvent → List StoredEvent
last_events all = drop (length all - event_history) all

-- The event that an operation records, with its number.
abbrev pub event_of : (number : ℕ) → EntryOp → Option StoredEvent
event_of number (EntryOp.emit now disk event detail) = some (record {
  event = record event { seq = number };
  detail = truncate_to_first_bytes detail model_string_max_bytes;
})
event_of number _ = none

-- All the events that some operations record, numbered from `number`.
unfoldable pub recorded : (number : ℕ) → List EntryOp → List StoredEvent
recorded number [] = []
recorded number (op ∷ ops) = elim (event_of number op) [
  | none ↦ recorded number ops
  | some stored ↦ stored ∷ recorded (suc number) ops
]

-- The timeline is not changed.
abbrev IsSameTimeline : ServiceEntry → ServiceEntry → Type 0
IsSameTimeline e after = (after.events ≡ e.events) × (after.next_event_seq ≡ e.next_event_seq)

enqueue-IsSameTimeline :
    (e : ServiceEntry) (out : ServiceEntry × Option (RunPath × DiskLogRecord))
    → IsSameTimeline e out.0
    → IsSameTimeline e (enqueue out)
unfolding enqueue
enqueue-IsSameTimeline e (after, none) h = h
enqueue-IsSameTimeline e (after, some (path, written)) h = h

ensure_run-IsSameTimeline : (g : ℕ) (e : ServiceEntry) → IsSameTimeline e (ensure_run g e).0
unfolding ensure_run
ensure_run-IsSameTimeline g e = elim (Option-cases (find_run g e.runs)) [
  | inl absent ↦ rw (absent, ensure_run) (refl, refl)
  | inr (run, found) ↦ rw (found, ensure_run) (refl, refl)
]

append_log-IsSameTimeline :
    (g : ℕ) (update : LogUpdateKind) (line : Text) (disk_line : Option Text) (timestamp : ℕ)
    (e : ServiceEntry)
    → IsSameTimeline e (append_log g update line disk_line timestamp e).0
unfolding append_log append_to
append_log-IsSameTimeline g update line disk_line timestamp e =
    elim (Bool-cases (not (g == e.latest_begun_run) && not (exists (is_of g) e.runs))) [
      | inl late ↦ rw late (refl, refl)
      | inr kept ↦ elim (Option-cases (ensure_run g e).1) [
        | inl absent ↦ rw (kept, absent) (ensure_run-IsSameTimeline g e)
        | inr (run, found) ↦ rw (kept, found) (ensure_run-IsSameTimeline g e)
      ]
    ]

health_only :
    (latest : Bool) (hs : List HealthAttempt) (e : ServiceEntry)
    → IsSameTimeline e (if latest then record e { health = hs } else e)
health_only true hs e = (refl, refl)
health_only false hs e = (refl, refl)

begun_in-IsSameTimeline :
    (g : ℕ) (e : ServiceEntry) (out : ServiceEntry × Option RunLogEntry)
    → IsSameTimeline e out.0
    → IsSameTimeline e (begun_in g out)
begun_in-IsSameTimeline g e (after, none) h = h
begun_in-IsSameTimeline g e (after, some run) h = h

begin_entry_run-IsSameTimeline : (g : ℕ) (e : ServiceEntry) → IsSameTimeline e (begin_entry_run g e)
unfolding begin_entry_run
begin_entry_run-IsSameTimeline g e =
    let begun = record e { latest_begun_run = g } in
    begun_in-IsSameTimeline g e (ensure_run g begun) (ensure_run-IsSameTimeline g begun)

-- The entry holds the last 256 of `past`, all the events recorded so far.
abbrev pub IsTimeline : List StoredEvent → ServiceEntry → Type 0
IsTimeline past e = (e.events ≡ last_events past) × (e.next_event_seq ≡ suc (length past))

same-IsTimeline :
    (past : List StoredEvent) (e after : ServiceEntry)
    → IsSameTimeline e after
    → IsTimeline past e
    → IsTimeline past after
same-IsTimeline past e after same h = (same.0 ∙ h.0, same.1 ∙ h.1)

with_banner-IsSameTimeline :
    (banner : Option Text) (disk : Bool) (timestamp : ℕ) (e : ServiceEntry)
    → IsSameTimeline e (with_banner banner disk timestamp e)
unfolding append_banner
with_banner-IsSameTimeline none disk timestamp e = (refl, refl)
with_banner-IsSameTimeline (some banner) disk timestamp e =
    enqueue-IsSameTimeline e _
      (append_log-IsSameTimeline e.latest_begun_run LogUpdateKind.append banner _ timestamp e)

push_event-IsTimeline :
    (past : List StoredEvent) (stored : StoredEvent) (e : ServiceEntry)
    → suc (length past) < u64_max
    → IsTimeline past e
    → IsTimeline
        (past ++ (record stored { event = record (stored.event) { seq = suc (length past) } }) ∷ [])
        (push_event stored e)
unfolding push_event
push_event-IsTimeline past stored e h timeline =
    let last = record stored { event = record (stored.event) { seq = suc (length past) } } in
    rw (timeline.0, timeline.1)
      (
        make_room_for_one-last event_history past last (omega arith),
        ground (arith, h, length-append past (last ∷ [])),
      )

record_event-IsTimeline :
    (past : List StoredEvent) (now : ℕ) (disk : Bool) (event : ServiceEvent) (detail : Text)
    (e : ServiceEntry)
    → suc (length past) < u64_max
    → IsTimeline past e
    → IsTimeline
        (past
          ++ (record {
            event = record event { seq = suc (length past) };
            detail = truncate_to_first_bytes detail model_string_max_bytes;
          })
            ∷ [])
        (record_event now disk event detail e)
unfolding record_event next_ingest_timestamp
record_event-IsTimeline past now disk event detail e h timeline =
    let stored : StoredEvent = record {
      event = event;
      detail = truncate_to_first_bytes detail model_string_max_bytes;
    } in
    let stamped = (next_ingest_timestamp now e).0 in
    same-IsTimeline _ (push_event stored stamped)
      (with_banner (log_banner stored) disk (next_ingest_timestamp now e).1
        (push_event stored stamped))
      (with_banner-IsSameTimeline (log_banner stored) disk _ (push_event stored stamped))
      (push_event-IsTimeline past stored stamped h timeline)

pub some_value : {a b : StoredEvent} → some a ≡ some b → a ≡ b
some_value e = cc

apply-IsSameTimeline :
    (number : ℕ) (op : EntryOp) (e : ServiceEntry)
    → event_of number op ≡ none
    → IsSameTimeline e (apply op e)
unfolding apply sink_log start_health append_health finish_health clear_visible_logs
    reconfigure_log_retention next_ingest_timestamp
apply-IsSameTimeline number (EntryOp.log now g disk stream update line) e h =
    enqueue-IsSameTimeline e _
      (append_log-IsSameTimeline g update _ _ _ (next_ingest_timestamp now e).0)
apply-IsSameTimeline number (EntryOp.emit now disk event detail) e h = cc
apply-IsSameTimeline number (EntryOp.begin_run g) e h = begin_entry_run-IsSameTimeline g e
apply-IsSameTimeline number EntryOp.clear_logs e h = (refl, refl)
apply-IsSameTimeline number (EntryOp.reconfigure retention) e h = (refl, refl)
apply-IsSameTimeline number (EntryOp.start_health_attempt g attempt command) e h =
    health_only (e.latest_begun_run == g) _ e
apply-IsSameTimeline number (EntryOp.append_health_line g attempt stream line) e h =
    health_only (e.latest_begun_run == g) _ e
apply-IsSameTimeline number (EntryOp.finish_health_attempt g attempt result) e h =
    health_only (e.latest_begun_run == g) _ e
apply-IsSameTimeline number (EntryOp.write_snapshot snapshot started_at) e h = (refl, refl)

apply-IsTimeline :
    (past : List StoredEvent) (op : EntryOp) (stored : StoredEvent) (e : ServiceEntry)
    → event_of (suc (length past)) op ≡ some stored
    → suc (length past) < u64_max
    → IsTimeline past e
    → IsTimeline (past ++ stored ∷ []) (apply op e)
unfolding apply
apply-IsTimeline past (EntryOp.emit now disk event detail) stored e same h timeline =
    subst (λ s. IsTimeline (past ++ s ∷ []) (record_event now disk event detail e))
      (some_value same) (record_event-IsTimeline past now disk event detail e h timeline)
apply-IsTimeline past (EntryOp.log now g disk stream update line) stored e same h timeline = cc
apply-IsTimeline past (EntryOp.begin_run g) stored e same h timeline = cc
apply-IsTimeline past EntryOp.clear_logs stored e same h timeline = cc
apply-IsTimeline past (EntryOp.reconfigure retention) stored e same h timeline = cc
apply-IsTimeline past (EntryOp.start_health_attempt g a command) stored e same h timeline = cc
apply-IsTimeline past (EntryOp.append_health_line g a stream line) stored e same h timeline = cc
apply-IsTimeline past (EntryOp.finish_health_attempt g a result) stored e same h timeline = cc
apply-IsTimeline past (EntryOp.write_snapshot snapshot started_at) stored e same h timeline = cc

pub apply_all-IsTimeline :
    (past : List StoredEvent) (ops : List EntryOp) (e : ServiceEntry)
    → suc (length past) + length ops ≤ u64_max
    → IsTimeline past e
    → IsTimeline (past ++ recorded (suc (length past)) ops) (apply_all ops e)
unfolding apply_all recorded
apply_all-IsTimeline past [] e h timeline = rw (append-nil past) timeline
apply_all-IsTimeline past (op ∷ ops) e h timeline =
    elim (Option-cases (event_of (suc (length past)) op)) [
      | inl silent ↦
          rw (silent, recorded)
            (apply_all-IsTimeline past ops (apply op e) (omega arith)
              (same-IsTimeline past e (apply op e) (apply-IsSameTimeline _ op e silent) timeline))
      | inr (stored, found) ↦
          let more = past ++ stored ∷ [] in
          let long : suc (length more) ≡ suc (suc (length past)) =
            omega (arith, length-append past (stored ∷ [])) in
          rw
            (
              found,
              recorded,
              ← append_assoc past (stored ∷ []) (recorded (suc (suc (length past))) ops),
            )
            (subst (λ n. IsTimeline (more ++ recorded n ops) (apply_all ops (apply op e))) long
              (apply_all-IsTimeline more ops (apply op e) (omega arith)
                (apply-IsTimeline past op stored e found (omega arith) timeline)))
    ]
