-- ===== src/Store/EventHistory.antt =====
-- crates/micromux/src/model.rs: the bounded event history of a service, and its readers' cursor.
use micromux.Prelude.{
  ℕ, zero, suc, ◌+◌, ◌-◌, ◌≤◌, ◌<◌, ◌≡◌, refl, sym, subst, ap, ◌∙◌, List, [], ◌∷◌, Bool, true,
  false, Option, none, some, arith, if◌then◌else◌, length, length-drop, drop, Bool-cases,
  Option-cases, inl, inr, u64_max, ltb, keep, String, min, map_or, is_some, saturating_sub,
}
use micromux.Model.{ServiceSnapshot}
use micromux.Store.{StoredEvent, LogRetention, new_entry, event_history}
use micromux.Store.Readers.{take, is_after, retention_truncated, entry_events}
use micromux.Store.Histories.{EntryOp, apply_all}
use micromux.Store.Tail.{drop_at, take_all}
use micromux.Store.Timeline.{last_events, event_of, recorded, some_value, apply_all-IsTimeline}

-- The numbers count up from `number`.
abbrev IsNumbered : (number : ℕ) → List StoredEvent → Type 0
IsNumbered number [] = Unit
IsNumbered number (stored ∷ rest) = (stored.event.seq ≡ number) × IsNumbered (suc number) rest

event_of-seq :
    (number : ℕ) (op : EntryOp) (stored : StoredEvent)
    → event_of number op ≡ some stored
    → stored.event.seq ≡ number
event_of-seq number (EntryOp.emit now disk event detail) stored e =
    ap (λ s. s.event.seq) (some_value (sym e))
event_of-seq number EntryOp.clear_logs stored e = cc
event_of-seq number (EntryOp.log now g disk stream update line) stored e = cc
event_of-seq number (EntryOp.begin_run g) stored e = cc
event_of-seq number (EntryOp.reconfigure retention) stored e = cc
event_of-seq number (EntryOp.start_health_attempt g a command) stored e = cc
event_of-seq number (EntryOp.append_health_line g a stream line) stored e = cc
event_of-seq number (EntryOp.finish_health_attempt g a result) stored e = cc
event_of-seq number (EntryOp.write_snapshot snapshot started_at) stored e = cc

recorded-IsNumbered : (number : ℕ) (ops : List EntryOp) → IsNumbered number (recorded number ops)
unfolding recorded
recorded-IsNumbered number [] = tt
recorded-IsNumbered number (op ∷ ops) = elim (Option-cases (event_of number op)) [
  | inl silent ↦ rw (silent, recorded) (recorded-IsNumbered number ops)
  | inr (stored, found) ↦
      rw (found, recorded)
        (event_of-seq number op stored found, recorded-IsNumbered (suc number) ops)
]

-- The cursor as a number: the events behind it are those with a greater number.
abbrev pub cursor : Option ℕ → ℕ
cursor none = 0
cursor (some after) = after

is_after_lem :
    (after : Option ℕ) (number : ℕ) (stored : StoredEvent)
    → stored.event.seq ≡ number
    → 1 ≤ number
    → is_after after stored ≡ ltb (cursor after) number
is_after_lem none number stored e h = ground (arith, e, h)
is_after_lem (some after) number stored e h = rw e

-- The first events, up to the cursor, are not read.
keep-drop :
    (after : Option ℕ) (number cut : ℕ) (all : List StoredEvent)
    → IsNumbered number all
    → 1 ≤ number
    → cut + number ≤ suc (cursor after)
    → keep (is_after after) (drop cut all) ≡ keep (is_after after) all
keep-drop after number zero all h low le = refl
keep-drop after number (suc cut) [] h low le = refl
keep-drop after number (suc cut) (stored ∷ all) h low le =
    rw (is_after_lem after number stored h.0 low)
      (ground (arith, keep-drop after (suc number) cut all h.1 (omega arith) (omega arith)))

drop-IsNumbered :
    (number cut : ℕ) (all : List StoredEvent)
    → IsNumbered number all
    → IsNumbered (cut + number) (drop cut all)
drop-IsNumbered number zero all h = subst (λ n. IsNumbered n all) (omega arith) h
drop-IsNumbered number (suc cut) [] h = tt
drop-IsNumbered number (suc cut) (stored ∷ all) h =
    subst (λ n. IsNumbered n (drop cut all)) (omega arith)
      (drop-IsNumbered (suc number) cut all h.1)

held_from :
    (after : Option ℕ) (cut : ℕ) (held : List StoredEvent)
    → IsNumbered (cut + 1) held
    → retention_truncated after held ≡ false
    → 1 ≤ length held
    → cut ≤ cursor after
held_from after cut [] numbered h some_held = absurd (omega arith)
held_from none cut (first ∷ rest) numbered h some_held = ground (arith, numbered.0, h)
held_from (some after) cut (first ∷ rest) numbered h some_held = ground (arith, numbered.0, h)

page_all :
    (forward truncated : Bool) (limit : ℕ) (matching : List StoredEvent)
    → ltb limit (length matching) ≡ false
    → let page : List StoredEvent × Bool =
        if forward
        then (take limit matching, truncated)
        else (drop (saturating_sub (length matching) limit) matching, truncated) in
      page.0 ≡ matching
page_all true truncated limit matching h = take_all limit matching (ground (arith, h))
page_all false truncated limit matching h =
    drop_at (length matching - limit) 0 matching (ground (arith, h))

-- A reader who is told that nothing is missing has everything behind the cursor.
page_lem :
    (after tail : Option ℕ) (all : List StoredEvent)
    → IsNumbered 1 all
    → (entry_events after tail (last_events all)).1 ≡ false
    → (entry_events after tail (last_events all)).0 ≡ keep (is_after after) all
unfolding entry_events
page_lem after tail all numbered complete =
    let cut = length all - event_history in
    let held = drop cut all in
    let size = length-drop cut all in
    let limit = min (map_or tail event_history (λ n. n)) event_history in
    let seen : retention_truncated after held ≡ false = ground (arith, complete) in
    let fits : ltb limit (length (keep (is_after after) held)) ≡ false = ground (arith, complete) in
    let low : cut ≤ cursor after = elim (Bool-cases (ltb 0 (length held))) [
      | inl some_held ↦
          held_from after cut held (drop-IsNumbered 1 cut all numbered) seen
            (ground (arith, some_held))
      | inr no_held ↦ ground (arith, no_held, size)
    ] in
    page_all (is_some after) _ limit (keep (is_after after) held) fits
    ∙ keep-drop after 1 cut all numbered (omega arith) (omega arith)

-- After any sequence of fewer than 2 ^ 64 - 1 operations on a new entry: a read of the events, with
-- or without a cursor and for any number of them, that is not marked as truncated returns exactly
-- the events recorded so far whose numbers are greater than the cursor, in order.
pub entry_events-apply_all :
    (ops : List EntryOp) (snapshot : ServiceSnapshot) (retention : LogRetention)
    (spool_dir : Option String) (disk : Bool) (after tail : Option ℕ)
    → length ops < u64_max
    → let e = apply_all ops (new_entry snapshot retention spool_dir disk) in
      (entry_events after tail e.events).1 ≡ false
      → (entry_events after tail
          (apply_all ops (new_entry snapshot retention spool_dir disk)).events).0
        ≡ keep (is_after after) (recorded 1 ops)
unfolding new_entry
entry_events-apply_all ops snapshot retention spool_dir disk after tail h complete =
    let timeline =
      apply_all-IsTimeline [] ops (new_entry snapshot retention spool_dir disk) (omega arith)
        (refl, refl) in
    let all = recorded 1 ops in
    subst
      (λ es.
        (entry_events after tail es).1 ≡ false
        → (entry_events after tail es).0 ≡ keep (is_after after) all)
      (sym timeline.0) (page_lem after tail all (recorded-IsNumbered 1 ops)) complete
