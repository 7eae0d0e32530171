-- ===== src/Store/Writer.antt =====
-- crates/micromux/src/model.rs: `SessionModelWriter` and `ServiceEvent::log_banner`.
use micromux.Prelude.{
  ℕ, zero, suc, ◌*◌, ◌+◌, ◌-◌, ◌/◌, max, [], ◌∷◌, ◌++◌, Bool, true, false, Option, none, some,
  if◌then◌else◌, map_or, length, lookup, remove, saturating_add, saturating_sub, is_some,
}
use micromux.Text.{Text, truncate_to_first_bytes}
use micromux.Model.{ServiceId, ServiceEvent, ServiceEventKind, ServiceSnapshot}
use micromux.Store.{
  StoredEvent, ServiceEntry, LogRetention, new_entry, model_string_max_bytes, event_history,
}
use micromux.Store.Entry.{
  next_ingest_timestamp, append_banner, begin_entry_run, clear_visible_logs,
  reconfigure_log_retention, remove_retained_run_files,
}
use micromux.Store.Sink.{
  ChangeKind, Inner, publish, store_entry, enqueue, disk_copy, make_room_for_one,
}

abbrev pub banner_width : ℕ
banner_width = 56

abbrev pub banner_min_fill : ℕ
banner_min_fill = 3

abbrev pub repeat_char : ℕ → ℕ → Text
repeat_char c zero = []
repeat_char c (suc n) = c ∷ repeat_char c n

-- "\u{1b}[1;34m" and "\u{1b}[0m"
abbrev pub blue : Text
blue = 0x1b ∷ b'[' ∷ b'1' ∷ b';' ∷ b'3' ∷ b'4' ∷ b'm' ∷ []

abbrev pub plain : Text
plain = 0x1b ∷ b'[' ∷ b'0' ∷ b'm' ∷ []

unfoldable pub banner_line : Text → Text
banner_line label =
    let fill = max (saturating_sub banner_width (length label + 2)) (2 * banner_min_fill) in
    let left = repeat_char b'=' (fill / 2) in
    let right = repeat_char b'=' (fill - fill / 2) in
    blue ++ (left ++ (b' ' ∷ (label ++ (b' ' ∷ (right ++ plain)))))

unfoldable pub is_mirrored : ServiceEventKind → Bool
is_mirrored ServiceEventKind.restart_requested = true
is_mirrored ServiceEventKind.enable_requested = true
is_mirrored ServiceEventKind.disable_requested = true
is_mirrored ServiceEventKind.spawn_failed = true
is_mirrored ServiceEventKind.backoff_scheduled = true
is_mirrored ServiceEventKind.dependency_blocked = true
is_mirrored ServiceEventKind.dependency_ready = true
is_mirrored ServiceEventKind.input_dropped = true
is_mirrored ServiceEventKind.replaced = true
is_mirrored ServiceEventKind.retired = true
is_mirrored ServiceEventKind.config_reloaded = false
is_mirrored ServiceEventKind.spawned = false
is_mirrored ServiceEventKind.healthy = false
is_mirrored ServiceEventKind.unhealthy = false
is_mirrored ServiceEventKind.exited = false
is_mirrored ServiceEventKind.created = false
is_mirrored ServiceEventKind.lease_renewed = false
is_mirrored ServiceEventKind.unknown = false

-- `ServiceEvent::log_banner`
unfoldable pub log_banner : StoredEvent → Option Text
unfolding banner_line is_mirrored
log_banner stored = if is_mirrored stored.event.kind then some (banner_line stored.detail) else none

-- An event with its number, at the end of the bounded history.
unfoldable pub push_event : StoredEvent → ServiceEntry → ServiceEntry
unfolding make_room_for_one
push_event stored e = record e {
  next_event_seq = saturating_add e.next_event_seq 1;
  events =
      make_room_for_one event_history e.events
      ++ (record stored { event = record (stored.event) { seq = e.next_event_seq } }) ∷ [];
}

abbrev pub with_banner :
    Option Text → (disk : Bool) → (timestamp_unix_ms : ℕ) → ServiceEntry → ServiceEntry
with_banner none disk timestamp_unix_ms e = e
with_banner (some banner) disk timestamp_unix_ms e =
    enqueue (append_banner banner (disk_copy disk banner) timestamp_unix_ms e)

-- What `append_event` does to the entry.
unfoldable pub record_event :
    (now_ms : ℕ) (disk : Bool) → ServiceEvent → (detail : Text) → ServiceEntry → ServiceEntry
unfolding next_ingest_timestamp push_event append_banner enqueue log_banner truncate_to_first_bytes
record_event now_ms disk event detail e =
    let stored : StoredEvent = record {
      event = event;
      detail = truncate_to_first_bytes detail model_string_max_bytes;
    } in
    let (stamped, timestamp_unix_ms) = next_ingest_timestamp now_ms e in
    with_banner (log_banner stored) disk timestamp_unix_ms (push_event stored stamped)

abbrev publish_if : Bool → ServiceId → ChangeKind → Inner → Inner
publish_if wanted id kind m = if wanted then publish id kind m else m

unfoldable pub append_event :
    (now_ms : ℕ) → ServiceId → ServiceEvent → (detail : Text) → Inner → Inner
unfolding record_event publish is_mirrored
append_event now_ms id event detail m = map_or (lookup id m.services) m (λ e.
    publish_if (is_mirrored event.kind) id ChangeKind.logs
      (publish id ChangeKind.events (store_entry id (record_event now_ms m.disk event detail e) m)))

unfoldable pub insert_service : ServiceSnapshot → LogRetention → Inner → Inner
unfolding new_entry publish
insert_service snapshot retention m =
    if is_some (lookup snapshot.id m.services)
    then m
    else publish snapshot.id ChangeKind.roster
        (store_entry snapshot.id (new_entry snapshot retention m.spool_dir m.disk) m)

-- The removed entry is given with what was sent for it.
unfoldable pub remove_service : ServiceId → Inner → Inner × Option ServiceEntry
unfolding remove_retained_run_files publish
remove_service id m = elim (lookup id m.services) [
  | none ↦ (m, none)
  | some e ↦ (
    publish id ChangeKind.roster (record m { services = remove id m.services }),
    some (remove_retained_run_files e),
  )
]

unfoldable pub write_snapshot : ServiceSnapshot → (started_at : Option ℕ) → Inner → Inner
unfolding publish
write_snapshot snapshot started_at m = map_or (lookup snapshot.id m.services) m (λ e.
    publish snapshot.id ChangeKind.status
      (store_entry snapshot.id (record e { snapshot = snapshot; started_at = started_at }) m))

unfoldable pub clear_logs : ServiceId → Inner → Inner
unfolding clear_visible_logs publish
clear_logs id m =
    map_or (lookup id m.services) m
      (λ e. publish id ChangeKind.logs (store_entry id (clear_visible_logs e) m))

-- The change is published for an unknown service too.
unfoldable pub begin_run : ServiceId → (run_generation : ℕ) → Inner → Inner
unfolding begin_entry_run publish
begin_run id run_generation m = publish id ChangeKind.health (
    publish id ChangeKind.logs
      (map_or (lookup id m.services) m (λ e. store_entry id (begin_entry_run run_generation e) m)))

unfoldable pub reconfigure_retention : ServiceId → LogRetention → Inner → Inner
unfolding reconfigure_log_retention publish
reconfigure_retention id retention m =
    map_or (lookup id m.services) m
      (λ e. publish id ChangeKind.logs (store_entry id (reconfigure_log_retention retention e) m))
