-- ===== src/RunLog/Queue.antt =====
-- crates/micromux/src/model/disk.rs: `DiskQueueBudget`, which bounds the records that wait for the
-- disk worker. The atomic counter's loop takes effect at its one successful exchange. The permits
-- are those of the waiting records, the oldest first.
use micromux.Prelude.{
  ℕ, ◌+◌, ◌-◌, ◌*◌, ◌/◌, ◌≤◌, ◌≡◌, refl, List, [], ◌∷◌, ◌++◌, Bool, true, false, Option, none, some,
  ltb, leb, arith, if◌then◌else◌, checked_add, Bool-cases, inl, inr, ◌⊎◌, ◌∙◌, subst, u64_max,
}

abbrev pub disk_log_queue_max_bytes : ℕ
disk_log_queue_max_bytes = 8 * 1024 * 1024

pub record DiskQueueBudget : Type 0 where
  pub queued_bytes : ℕ
  pub overflow_warned : Bool

unfoldable pub try_reserve : (bytes : ℕ) → DiskQueueBudget → Option DiskQueueBudget
try_reserve bytes budget = elim (checked_add budget.queued_bytes bytes) [
  | none ↦ none
  | some next ↦
      if ltb disk_log_queue_max_bytes next
      then none
      else some (record {
        queued_bytes = next;
        overflow_warned =
            if ltb budget.queued_bytes (disk_log_queue_max_bytes / 2)
            then false
            else budget.overflow_warned;
      })
]

-- The budget with the permits of the records that wait.
pub record DiskQueue : Type 0 where
  pub budget : DiskQueueBudget
  pub permits : List ℕ

abbrev pub new_queue : DiskQueue
new_queue = record { budget = record { queued_bytes = 0; overflow_warned = false }; permits = [] }

-- `DiskLogWriter::write`: whether the record waits, or is dropped.
unfoldable pub send_write : (bytes : ℕ) → DiskQueue → DiskQueue × Bool
unfolding try_reserve
send_write bytes q = elim (try_reserve bytes q.budget) [
  | none ↦ (record q { budget = record (q.budget) { overflow_warned = true } }, false)
  | some budget ↦ (record { budget = budget; permits = q.permits ++ bytes ∷ [] }, true)
]

abbrev after_first : DiskQueueBudget → List ℕ → DiskQueue
after_first budget [] = record { budget = budget; permits = [] }
after_first budget (bytes ∷ permits) = record {
  budget = record budget { queued_bytes = budget.queued_bytes - bytes };
  permits = permits;
}

-- The worker takes the oldest record, whose permit is dropped.
unfoldable pub take_write : DiskQueue → DiskQueue
take_write q = after_first q.budget q.permits

abbrev pub sum : List ℕ → ℕ
sum [] = 0
sum (n ∷ ns) = n + sum ns

-- The bytes of the waiting records are counted exactly, and are within the limit.
abbrev pub IsCounted : DiskQueue → Type 0
IsCounted q = (q.budget.queued_bytes ≡ sum q.permits) × (sum q.permits ≤ disk_log_queue_max_bytes)

sum-snoc : (ns : List ℕ) (n : ℕ) → sum (ns ++ n ∷ []) ≡ sum ns + n
sum-snoc [] n = omega arith
sum-snoc (m ∷ ns) n = omega (arith, sum-snoc ns n)

after_first-IsCounted :
    (budget : DiskQueueBudget) (permits : List ℕ)
    → budget.queued_bytes ≡ sum permits
    → sum permits ≤ disk_log_queue_max_bytes
    → IsCounted (after_first budget permits)
after_first-IsCounted budget [] e h = (e, h)
after_first-IsCounted budget (bytes ∷ permits) e h = (omega arith, omega arith)

-- A record waits exactly where it fits.
try_reserve_lem :
    (bytes : ℕ) (budget : DiskQueueBudget)
    → (leb (budget.queued_bytes + bytes) disk_log_queue_max_bytes ≡ true)
        × ((after : DiskQueueBudget) × (try_reserve bytes budget ≡ some after)
            × (after.queued_bytes ≡ budget.queued_bytes + bytes))
      ⊎ (leb (budget.queued_bytes + bytes) disk_log_queue_max_bytes ≡ false)
        × (try_reserve bytes budget ≡ none)
unfolding try_reserve
try_reserve_lem bytes budget =
    let total = budget.queued_bytes + bytes in
    elim (Bool-cases (leb total disk_log_queue_max_bytes)) [
      | inl fits ↦
          let sums : leb total u64_max ≡ true = ground (arith, fits) in
          let within : ltb disk_log_queue_max_bytes total ≡ false = ground (arith, fits) in
          inl (
            fits,
            (
              record {
                queued_bytes = total;
                overflow_warned =
                    if ltb budget.queued_bytes (disk_log_queue_max_bytes / 2)
                    then false
                    else budget.overflow_warned;
              },
              rw (sums, try_reserve) (rw within),
              refl,
            ),
          )
      | inr over ↦ elim (Bool-cases (leb total u64_max)) [
        | inl sums ↦
            let above : ltb disk_log_queue_max_bytes total ≡ true = ground (arith, over) in
            inr (over, rw (sums, try_reserve) (rw above))
        | inr wraps ↦ inr (over, rw (wraps, try_reserve))
      ]
    ]

-- A queue that counts its waiting records exactly, within the limit of 8 MiB, does so behind a
-- further record of any size and behind the worker's taking one; and a record waits exactly where
-- it fits within the limit, else it is dropped.
pub send_write-IsCounted :
    (bytes : ℕ) (q : DiskQueue)
    → IsCounted q
    → IsCounted (send_write bytes q).0
      × IsCounted (take_write q)
      × ((send_write bytes q).1 ≡ leb (sum q.permits + bytes) disk_log_queue_max_bytes)
unfolding send_write take_write try_reserve
send_write-IsCounted bytes q h =
    let taken = after_first-IsCounted q.budget q.permits h.0 h.1 in
    elim (try_reserve_lem bytes q.budget) [
      | inl (fits, (after, reserved, counts)) ↦
          let same = subst (λ n. leb (n + bytes) disk_log_queue_max_bytes ≡ true) h.0 fits in
          rw (reserved, send_write, same)
            (
              (
                counts ∙ omega (arith, sum-snoc q.permits bytes, h.0),
                ground (arith, fits, sum-snoc q.permits bytes, h.0),
              ),
              taken,
              refl,
            )
      | inr (over, refused) ↦
          let same = subst (λ n. leb (n + bytes) disk_log_queue_max_bytes ≡ false) h.0 over in
          rw (refused, send_write, same) (h, taken, refl)
    ]
