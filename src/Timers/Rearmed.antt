-- ===== src/Timers/Rearmed.antt =====
-- crates/micromux/src/scheduler.rs: the deadlines that a timer's handler leaves.
use micromux.Prelude.{
  ℕ, ◌≡◌, refl, ◌∙◌, List, [], ◌∷◌, ◌++◌, map, true, Option, none, some, arith, ltb, map_or, All,
  filter_map, or_cons, least-above,
}
use micromux.Model.{ServiceId, ServiceEventKind}
use micromux.Runtime.{Clock, DrainingLogReader, ServiceRuntime, cancel_if_due}
use micromux.Runtime.Drops.{InputDropThrottle, take_due}
use micromux.Runtime.Finish.{cancel_due_drains}
use micromux.Session.{Runtimes, Session}
use micromux.Timers.{
  next_drain_deadline, next_input_drop_report, each, drain_deadlines, cancel_all_due_drains,
  report_due_input_drops, report_all, take_due_of,
}
use micromux.Events.Written.{append_service_event-runtimes}

-- All deadlines of a list are later than an instant.
abbrev pub AreLater : (now : ℕ) → List ℕ → Type 0
AreLater now deadlines = All (λ d. ltb now d ≡ true) deadlines

pub later-or_cons :
    (now : ℕ) (o : Option ℕ) (ds : List ℕ)
    → map_or o true (ltb now) ≡ true
    → AreLater now ds
    → AreLater now (or_cons o ds)
later-or_cons now none ds h hs = hs
later-or_cons now (some d) ds h hs = (h, hs)

later-append :
    (now : ℕ) (xs ys : List ℕ) → AreLater now xs → AreLater now ys → AreLater now (xs ++ ys)
later-append now [] ys hx hy = hy
later-append now (x ∷ xs) ys hx hy = (hx.0, later-append now xs ys hx.1 hy)

one_drain :
    (now : ℕ) (d : DrainingLogReader) → map_or (cancel_if_due now d).cancel_at true (ltb now) ≡ true
unfolding cancel_if_due
one_drain now d = ground arith

reader_deadlines :
    (now : ℕ) (readers : List DrainingLogReader)
    → AreLater now
        (filter_map (λ (d : DrainingLogReader). d.cancel_at) (map (cancel_if_due now) readers))
reader_deadlines now [] = tt
reader_deadlines now (d ∷ readers) =
    later-or_cons now (cancel_if_due now d).cancel_at _ (one_drain now d)
      (reader_deadlines now readers)

drains_later :
    (now : ℕ) (m : Runtimes) → AreLater now (drain_deadlines (each (cancel_due_drains now) m))
unfolding cancel_due_drains
drains_later now [] = tt
drains_later now ((id, r) ∷ m) =
    later-append now _ _ (reader_deadlines now r.draining_log_readers) (drains_later now m)

-- When the reader deadlines that have come at an instant are dealt with, the next one is later.
pub cancel_all_due_drains-later :
    (now : ℕ) (s : Session)
    → map_or (next_drain_deadline (cancel_all_due_drains now s).runtimes) true (ltb now) ≡ true
unfolding next_drain_deadline cancel_all_due_drains
cancel_all_due_drains-later now s = least-above now _ (drains_later now s.runtimes)

one_report :
    (now : ℕ) (t : InputDropThrottle) → map_or (take_due now t).0.report_at true (ltb now) ≡ true
unfolding take_due
one_report now t = ground arith

pub report_all-runtimes :
    (clock : Clock) (ids : List ServiceId) (s : Session)
    → (report_all clock ids s).runtimes ≡ s.runtimes
report_all-runtimes clock [] s = refl
report_all-runtimes clock (id ∷ ids) s =
    report_all-runtimes clock ids _
    ∙ append_service_event-runtimes clock id ServiceEventKind.input_dropped s

reports_later :
    (now : ℕ) (m : Runtimes)
    → AreLater now (
        filter_map
          (λ (e : ServiceId × ServiceRuntime). e.1.input_drops.report_at)
          (each (take_due_of now) m))
reports_later now [] = tt
reports_later now ((id, r) ∷ m) =
    later-or_cons now (take_due now r.input_drops).0.report_at _ (one_report now r.input_drops)
      (reports_later now m)

-- When the reports of discarded input that are due at an instant are made, the next one is later.
pub report_due_input_drops-later :
    (clock : Clock) (s : Session)
    → map_or (next_input_drop_report (report_due_input_drops clock s).runtimes) true (ltb clock.now)
      ≡ true
unfolding next_input_drop_report report_due_input_drops
report_due_input_drops-later clock s =
    rw
      (report_all-runtimes clock _
        (record s { runtimes = each (take_due_of clock.now) s.runtimes }))
      (least-above clock.now _ (reports_later clock.now s.runtimes))
