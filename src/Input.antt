-- ===== src/Input.antt =====
-- crates/micromux/src/scheduler/input.rs: terminal input for the services, which owns a part of
-- the session's budget from its preparation on until it is dropped.
-- A payload is the list of its bytes. There is one session, so that the check for input of another
-- one, and the channel that carries the input, are left out.
pub mod Shares
pub mod Reserved
pub mod Merged
mod Examples
use micromux.Prelude.{
  ℕ, ◌+◌, ◌-◌, ◌*◌, List, [], ◌∷◌, ◌++◌, Bool, true, false, not, ◌||◌, Option, none, some, ltb,
  ◌==◌, if◌then◌else◌, map_or, length, checked_add, saturating_sub, String, lookup, insert, remove,
  text_eq, is_some,
}
use micromux.Model.{ServiceId}

abbrev pub max_pty_input_batch_bytes : ℕ
max_pty_input_batch_bytes = 64 * 1024

abbrev pub max_pty_paste_bytes : ℕ
max_pty_paste_bytes = 1024 * 1024

-- `InputBudget` with its `InputBudgetState`.
pub record InputBudget : Type 0 where
  pub used : ℕ
  pub per_service : List (ServiceId × ℕ)
  pub max_bytes : ℕ
  pub per_service_max_bytes : ℕ

unfoldable pub shared : InputBudget
shared = record {
  used = 0;
  per_service = [];
  max_bytes = 8 * max_pty_paste_bytes;
  per_service_max_bytes = 2 * max_pty_paste_bytes;
}

pub data InputBudgetExhausted : Type 0 where
  global service : InputBudgetExhausted

pub data ReserveResult : Type 0 where
  reserved : InputBudget → ReserveResult
  exhausted : InputBudgetExhausted → ReserveResult

abbrev pub used_by : ServiceId → InputBudget → ℕ
used_by id budget = map_or (lookup id budget.per_service) 0 (λ n. n)

-- The share of the service, behind the check of the session's.
abbrev pub reserve_share : ServiceId → (bytes next_global : ℕ) → InputBudget → ReserveResult
reserve_share id bytes next_global budget = elim (checked_add (used_by id budget) bytes) [
  | none ↦ exhausted service
  | some next_service ↦
      if ltb budget.per_service_max_bytes next_service
      then exhausted service
      else reserved (record budget {
        used = next_global;
        per_service =
            if ltb 0 bytes then insert id next_service budget.per_service else budget.per_service;
      })
]

unfoldable pub try_reserve : ServiceId → (bytes : ℕ) → InputBudget → ReserveResult
try_reserve id bytes budget = elim (checked_add budget.used bytes) [
  | none ↦ exhausted global
  | some next_global ↦
      if ltb budget.max_bytes next_global
      then exhausted global
      else reserve_share id bytes next_global budget
]

-- A share that is used up no more is taken out.
abbrev pub set_share : ServiceId → ℕ → List (ServiceId × ℕ) → List (ServiceId × ℕ)
set_share id left per_service =
    if left == 0 then remove id per_service else insert id left per_service

-- `InputPermit::drop`
unfoldable pub release : ServiceId → (bytes : ℕ) → InputBudget → InputBudget
release id bytes budget = if bytes == 0 then budget else record budget {
  used = saturating_sub budget.used bytes;
  per_service = elim (lookup id budget.per_service) [
    | none ↦ budget.per_service
    | some share ↦ set_share id (saturating_sub share bytes) budget.per_service
  ];
}

pub data PtyInputKind : Type 0 where
  input paste : PtyInputKind

abbrev pub max_bytes_of : PtyInputKind → ℕ
max_bytes_of PtyInputKind.input = max_pty_input_batch_bytes
max_bytes_of PtyInputKind.paste = max_pty_paste_bytes

-- With the bytes of its permit, which is of the same service.
pub record PreparedPtyInput : Type 0 where
  pub service_id : ServiceId
  pub data_bytes : List ℕ
  pub kind : PtyInputKind
  pub permit : ℕ

pub data PtyInputPrepareError : Type 0 where
  too_large budget_exhausted service_budget_exhausted :
      PtyInputKind → (bytes max_bytes : ℕ) → PtyInputPrepareError

pub data PrepareResult : Type 0 where
  prepared : PreparedPtyInput → InputBudget → PrepareResult
  refused : PtyInputPrepareError → PrepareResult

unfoldable pub prepare :
    ServiceId → (data_bytes : List ℕ) → PtyInputKind → InputBudget → PrepareResult
unfolding try_reserve
prepare id data_bytes kind budget =
    let bytes = length data_bytes in
    if ltb (max_bytes_of kind) bytes
    then refused (too_large kind bytes (max_bytes_of kind))
    else elim (try_reserve id bytes budget) [
      | exhausted InputBudgetExhausted.global ↦
          refused (budget_exhausted kind bytes budget.max_bytes)
      | exhausted InputBudgetExhausted.service ↦
          refused (service_budget_exhausted kind bytes budget.per_service_max_bytes)
      | reserved after ↦
          prepared
            (record { service_id = id; data_bytes = data_bytes; kind = kind; permit = bytes }) after
    ]

abbrev pub is_input : PtyInputKind → Bool
is_input PtyInputKind.input = true
is_input PtyInputKind.paste = false

-- `try_merge`: the merged input, or nothing where `other` is given back.
unfoldable pub try_merge : PreparedPtyInput → PreparedPtyInput → Option PreparedPtyInput
try_merge p other =
    if not (is_input p.kind)
      || (not (is_input other.kind)
          || (not (text_eq p.service_id other.service_id)
              || ltb max_pty_input_batch_bytes (length p.data_bytes + length other.data_bytes)))
    then none
    else some (record p {
      data_bytes = p.data_bytes ++ other.data_bytes;
      permit = p.permit + other.permit;
    })
