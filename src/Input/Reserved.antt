-- ===== src/Input/Reserved.antt =====
-- crates/micromux/src/scheduler/input.rs: the budget and the inputs that hold parts of it.
use micromux.Prelude.{
  ℕ, ◌+◌, ◌-◌, ◌≤◌, ◌<◌, ◌≡◌, refl, ap, ◌∙◌, List, [], ◌∷◌, ◌++◌, false, none, some, arith,
  if◌then◌else◌, length, ltb, leb, ◌==◌, lookup, insert, text_eq, text_eq_self, text_eq_iff_lem,
  All, Bool-cases, Option-cases, inl, inr, u64_max, map_or,
}
use micromux.Model.{ServiceId}
use micromux.Input.{
  InputBudget, try_reserve, release, set_share, used_by, PreparedPtyInput, PrepareResult, prepared,
  refused, prepare, PtyInputKind, max_bytes_of, too_large, budget_exhausted,
  service_budget_exhausted,
}
use micromux.Input.Shares.{
  Shares, share, IsKeyed, share-insert, insert-IsKeyed, set_share-IsKeyed, share-set_share,
}

abbrev pub total : List PreparedPtyInput → ℕ
total [] = 0
total (p ∷ held) = p.permit + total held

abbrev pub total_of : ServiceId → List PreparedPtyInput → ℕ
total_of id [] = 0
total_of id (p ∷ held) = (if text_eq p.service_id id then p.permit else 0) + total_of id held

-- The budget counts exactly the bytes that are held, in all and for each service, within the
-- limits, and each input holds as many bytes as it has.
pub record IsReserved (budget : InputBudget) (held : List PreparedPtyInput) : Type 0 where
  pub keyed : IsKeyed budget.per_service
  pub counted : budget.used ≡ total held
  pub shared : (id : ServiceId) → used_by id budget ≡ total_of id held
  pub within : total held ≤ budget.max_bytes
  pub within_share : (id : ServiceId) → total_of id held ≤ budget.per_service_max_bytes
  pub owned : All (λ p. p.permit ≡ length p.data_bytes) held

total-append :
    (before after : List PreparedPtyInput) → total (before ++ after) ≡ total before + total after
total-append [] after = omega arith
total-append (p ∷ before) after = omega (arith, total-append before after)

total_of-append :
    (id : ServiceId) (before after : List PreparedPtyInput)
    → total_of id (before ++ after) ≡ total_of id before + total_of id after
total_of-append id [] after = omega arith
total_of-append id (p ∷ before) after = omega (arith, total_of-append id before after)

-- What a reservation of some bytes does to the shares.
share-reserved :
    (id other : ServiceId) (bytes : ℕ) (m : Shares)
    → share other (if ltb 0 bytes then insert id (share id m + bytes) m else m)
      ≡ (if text_eq id other then bytes else 0) + share other m
share-reserved id other bytes m = elim (Bool-cases (text_eq id other)) [
  | inl same ↦
      let e : share id m ≡ share other m = ap (λ s. share s m) (text_eq_iff_lem id other same) in
      elim (Bool-cases (ltb 0 bytes)) [
        | inl some_bytes ↦
            rw (some_bytes, share-insert id other (share id m + bytes) m, same) (omega (arith, e))
        | inr none_left ↦ rw (none_left, same) (ground (arith, none_left))
      ]
  | inr differs ↦ elim (Bool-cases (ltb 0 bytes)) [
    | inl some_bytes ↦
        rw (some_bytes, share-insert id other (share id m + bytes) m, differs) (omega arith)
    | inr none_left ↦ rw (none_left, differs) (omega arith)
  ]
]

with_bytes-IsKeyed :
    (id : ServiceId) (bytes n : ℕ) (m : Shares)
    → IsKeyed m
    → IsKeyed (if ltb 0 bytes then insert id n m else m)
with_bytes-IsKeyed id bytes n m h = elim (Bool-cases (ltb 0 bytes)) [
  | inl some_bytes ↦ rw some_bytes (insert-IsKeyed id n m h)
  | inr none_left ↦ rw none_left h
]

-- The input after a reservation.
with_input-IsReserved :
    (id : ServiceId) (data_bytes : List ℕ) (kind : PtyInputKind) (budget : InputBudget)
    (held : List PreparedPtyInput)
    → IsReserved budget held
    → budget.used + length data_bytes ≤ budget.max_bytes
    → used_by id budget + length data_bytes ≤ budget.per_service_max_bytes
    → IsReserved
        (record budget {
          used = budget.used + length data_bytes;
          per_service =
              if ltb 0 (length data_bytes)
              then insert id (used_by id budget + length data_bytes) budget.per_service
              else budget.per_service;
        })
        ((record {
          service_id = id;
          data_bytes = data_bytes;
          kind = kind;
          permit = length data_bytes;
        })
          ∷ held)
with_input-IsReserved id data_bytes kind budget held h fits fits_share = record {
  keyed = with_bytes-IsKeyed id (length data_bytes) _ budget.per_service h.keyed;
  counted = omega (arith, h.counted);
  shared = λ other.
      share-reserved id other (length data_bytes) budget.per_service
      ∙ ap (λ n. (if text_eq id other then length data_bytes else 0) + n) (h.shared other);
  within = omega (arith, h.counted, fits);
  within_share = λ other. elim (Bool-cases (text_eq id other)) [
    | inl same ↦
        let e : total_of id held ≡ total_of other held =
          ap (λ s. total_of s held) (text_eq_iff_lem id other same) in
        rw same (omega (arith, e, h.shared id, fits_share))
    | inr differs ↦ rw differs (omega (arith, h.within_share other))
  ];
  owned = (refl, h.owned);
}

-- Where input is prepared, it holds its bytes beside the others; where not, it is too large, or
-- the session or the service has no room for it beside what they hold.
abbrev pub IsPrepared :
    ServiceId
    → (data_bytes : List ℕ) → PtyInputKind
    → InputBudget
    → List PreparedPtyInput
    → PrepareResult
    → Type 0
IsPrepared id data_bytes kind budget held (prepared p after) =
    (p.service_id ≡ id)
    × (p.data_bytes ≡ data_bytes)
    × (p.kind ≡ kind)
    × IsReserved after (p ∷ held)
IsPrepared id data_bytes kind budget held (refused (too_large of bytes most)) =
    (of ≡ kind)
    × (bytes ≡ length data_bytes)
    × (most ≡ max_bytes_of kind)
    × (most < length data_bytes)
IsPrepared id data_bytes kind budget held (refused (budget_exhausted of bytes most)) =
    (of ≡ kind)
    × (bytes ≡ length data_bytes)
    × (most ≡ budget.max_bytes)
    × (most < total held + length data_bytes)
IsPrepared id data_bytes kind budget held (refused (service_budget_exhausted of bytes most)) =
    (of ≡ kind)
    × (bytes ≡ length data_bytes)
    × (most ≡ budget.per_service_max_bytes)
    × (most < total_of id held + length data_bytes)

-- On a budget that counts exactly, within 64-bit limits, what is held of it: input that is prepared
-- holds as many bytes as it has beside what was held, and the budget counts them exactly, for the
-- session and for each service, within the limits; input that is refused is too large for its kind,
-- or there is no room for it in the session's budget or in the service's share.
pub prepare-IsPrepared :
    (id : ServiceId) (data_bytes : List ℕ) (kind : PtyInputKind) (budget : InputBudget)
    (held : List PreparedPtyInput)
    → budget.max_bytes ≤ u64_max
    → budget.per_service_max_bytes ≤ u64_max
    → IsReserved budget held
    → IsPrepared id data_bytes kind budget held (prepare id data_bytes kind budget)
unfolding prepare try_reserve
prepare-IsPrepared id data_bytes kind budget held limit share_limit h =
    let bytes = length data_bytes in
    let own = h.shared id in
    elim (Bool-cases (ltb (max_bytes_of kind) bytes)) [
      | inl large ↦ rw large (refl, refl, refl, ground (arith, large))
      | inr small ↦ elim (Bool-cases (leb (budget.used + bytes) u64_max)) [
        | inr wraps ↦
            rw (small, wraps, try_reserve)
              (refl, refl, refl, ground (arith, wraps, h.counted, limit))
        | inl sums ↦ elim (Bool-cases (ltb budget.max_bytes (budget.used + bytes))) [
          | inl full ↦
              rw (small, sums, full, try_reserve)
                (refl, refl, refl, ground (arith, full, h.counted))
          | inr fits ↦ elim (Bool-cases (leb (used_by id budget + bytes) u64_max)) [
            | inr wraps ↦
                rw (small, sums, fits, wraps, try_reserve)
                  (refl, refl, refl, ground (arith, wraps, own, share_limit))
            | inl share_sums ↦
                elim (Bool-cases (ltb budget.per_service_max_bytes (used_by id budget + bytes))) [
                  | inl full ↦
                      rw (small, sums, fits, share_sums, full, try_reserve)
                        (refl, refl, refl, ground (arith, full, own))
                  | inr room ↦
                      rw (small, sums, fits, share_sums, room, try_reserve)
                        (
                          refl,
                          refl,
                          refl,
                          with_input-IsReserved id data_bytes kind budget held h
                              (ground (arith, fits)) (ground (arith, room)),
                        )
                ]
          ]
        ]
      ]
    ]

All-without :
    (P : PreparedPtyInput → Type 0) (before after : List PreparedPtyInput) (p : PreparedPtyInput)
    → All P (before ++ p ∷ after)
    → All P (before ++ after)
All-without P [] after p h = h.1
All-without P (q ∷ before) after p h = (h.0, All-without P before after p h.1)

total-without :
    (before after : List PreparedPtyInput) (p : PreparedPtyInput)
    → total (before ++ p ∷ after) ≡ p.permit + total (before ++ after)
total-without [] after p = refl
total-without (q ∷ before) after p = omega (arith, total-without before after p)

total_of-without :
    (id : ServiceId) (before after : List PreparedPtyInput) (p : PreparedPtyInput)
    → total_of id (before ++ p ∷ after)
      ≡ (if text_eq p.service_id id then p.permit else 0) + total_of id (before ++ after)
total_of-without id [] after p = refl
total_of-without id (q ∷ before) after p = omega (arith, total_of-without id before after p)

-- Without an input, no more is held of any service.
without_empty :
    (budget : InputBudget) (before after : List PreparedPtyInput) (p : PreparedPtyInput)
    → p.permit ≡ 0
    → IsReserved budget (before ++ p ∷ after)
    → IsReserved budget (before ++ after)
without_empty budget before after p e h = record {
  keyed = h.keyed;
  counted = omega (arith, h.counted, total-without before after p);
  shared = λ id. h.shared id ∙ ground (arith, total_of-without id before after p, e);
  within = omega (arith, h.within, total-without before after p);
  within_share = λ id. omega (arith, h.within_share id, total_of-without id before after p);
  owned = All-without (λ p. p.permit ≡ length p.data_bytes) before after p h.owned;
}

share_left :
    (other : ServiceId) (m : Shares) (id : ServiceId) (bytes whole rest : ℕ)
    → IsKeyed m
    → lookup id m ≡ some whole
    → share other m ≡ (if text_eq id other then bytes else 0) + rest
    → share other (set_share id (whole - bytes) m) ≡ rest
share_left other m id bytes whole rest keyed e h =
    let own : share id m ≡ whole = ap (λ found. map_or found 0 (λ n. n)) e in
    rw (share-set_share id other (whole - bytes) m keyed) (elim (Bool-cases (text_eq id other)) [
      | inl same ↦
          let both : share id m ≡ share other m =
            ap (λ s. share s m) (text_eq_iff_lem id other same) in
          rw same (ground (arith, own, both, h, same))
      | inr differs ↦ rw differs (ground (arith, h, differs))
    ])

-- A service of which an input holds bytes has a share.
has_share :
    (budget : InputBudget) (before after : List PreparedPtyInput) (p : PreparedPtyInput)
    → (p.permit == 0) ≡ false
    → IsReserved budget (before ++ p ∷ after)
    → ¬ (lookup p.service_id budget.per_service ≡ none)
has_share budget before after p holds h absent =
    let none_used : used_by p.service_id budget ≡ 0 =
      ap (λ found. map_or found 0 (λ n. n)) absent in
    let own = total_of-without p.service_id before after p in
    ground (arith, holds, none_used, h.shared p.service_id, own, text_eq_self p.service_id)

-- The budget without the bytes of an input.
released-IsReserved :
    (budget : InputBudget) (before after : List PreparedPtyInput) (p : PreparedPtyInput) (whole : ℕ)
    → lookup p.service_id budget.per_service ≡ some whole
    → IsReserved budget (before ++ p ∷ after)
    → IsReserved
        (record budget {
          used = budget.used - p.permit;
          per_service = set_share p.service_id (whole - p.permit) budget.per_service;
        })
        (before ++ after)
released-IsReserved budget before after p whole e h = record {
  keyed = set_share-IsKeyed p.service_id (whole - p.permit) budget.per_service h.keyed;
  counted = omega (arith, h.counted, total-without before after p);
  shared = λ id.
      share_left id budget.per_service p.service_id p.permit whole (total_of id (before ++ after))
        h.keyed e (h.shared id ∙ total_of-without id before after p);
  within = omega (arith, h.within, total-without before after p);
  within_share = λ id. omega (arith, h.within_share id, total_of-without id before after p);
  owned = All-without (λ p. p.permit ≡ length p.data_bytes) before after p h.owned;
}

-- When a budget counts exactly what is held of it and any of the inputs is dropped, then the
-- budget counts exactly what the others hold.
pub release-IsReserved :
    (budget : InputBudget) (before after : List PreparedPtyInput) (p : PreparedPtyInput)
    → IsReserved budget (before ++ p ∷ after)
    → IsReserved (release p.service_id p.permit budget) (before ++ after)
unfolding release
release-IsReserved budget before after p h = elim (Bool-cases (p.permit == 0)) [
  | inl empty ↦ rw empty (without_empty budget before after p (ground (arith, empty)) h)
  | inr holds ↦ elim (Option-cases (lookup p.service_id budget.per_service)) [
    | inl absent ↦ absurd (has_share budget before after p holds h absent)
    | inr (whole, found) ↦
        rw (holds, found) (released-IsReserved budget before after p whole found h)
  ]
]
