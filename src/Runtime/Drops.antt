-- ===== src/Runtime/Drops.antt =====
-- crates/micromux/src/scheduler.rs: `InputDropThrottle`, which reports discarded terminal input at
-- most once per interval and counts what it holds back.
use micromux.Prelude.{
  ℕ, ◌+◌, Bool, true, false, Option, none, some, ltb, ◌==◌, if◌then◌else◌, map_or, is_none,
  saturating_add,
}

abbrev pub input_drop_report_interval : ℕ
input_drop_report_interval = 1_000_000_000

pub record InputDropThrottle : Type 0 where
  pub report_at : Option ℕ
  pub suppressed : ℕ

abbrev pub no_drops : InputDropThrottle
no_drops = record { report_at = none; suppressed = 0 }

-- `now.checked_add(interval)`: an instant is taken to be in range.
unfoldable pub record_drop : (now : ℕ) → InputDropThrottle → InputDropThrottle × Bool
record_drop now t =
    if is_none t.report_at
    then (record t { report_at = some (now + input_drop_report_interval) }, true)
    else (record t { suppressed = saturating_add t.suppressed 1 }, false)

unfoldable pub take_due : (now : ℕ) → InputDropThrottle → InputDropThrottle × Option ℕ
take_due now t =
    if map_or t.report_at true (λ deadline. ltb now deadline)
    then (t, none)
    else if t.suppressed == 0
    then (record t { report_at = none }, none)
    else (
      record t { suppressed = 0; report_at = some (now + input_drop_report_interval) },
      some t.suppressed,
    )
