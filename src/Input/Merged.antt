-- ===== src/Input/Merged.antt =====
-- crates/micromux/src/scheduler/input.rs: the input that two inputs are merged into.
use micromux.Prelude.{
  ◌+◌, ◌≤◌, ◌≡◌, refl, sym, ap, ◌∙◌, List, ◌∷◌, ◌++◌, Option, none, some, arith, length,
  length-append, ltb, if◌then◌else◌, text_eq, text_eq_iff_lem, Bool-cases, inl, inr,
}
use micromux.Model.{ServiceId}
use micromux.Input.{InputBudget, PreparedPtyInput, try_merge, is_input, max_pty_input_batch_bytes}
use micromux.Input.Reserved.{IsReserved, total_of}

-- A merged input, in place of both.
abbrev pub IsMerged :
    InputBudget
    → PreparedPtyInput
    → PreparedPtyInput
    → List PreparedPtyInput
    → Option PreparedPtyInput
    → Type 0
IsMerged budget p other held none = IsReserved budget (p ∷ other ∷ held)
IsMerged budget p other held (some q) =
    (q.data_bytes ≡ p.data_bytes ++ other.data_bytes)
    × (length q.data_bytes ≤ max_pty_input_batch_bytes)
    × IsReserved budget (q ∷ held)

joined-IsReserved :
    (budget : InputBudget) (p other : PreparedPtyInput) (held : List PreparedPtyInput)
    → p.service_id ≡ other.service_id
    → IsReserved budget (p ∷ other ∷ held)
    → IsReserved budget (
        (record p {
          data_bytes = p.data_bytes ++ other.data_bytes;
          permit = p.permit + other.permit;
        })
        ∷ held)
joined-IsReserved budget p other held same h =
    let shares : (id : ServiceId)
        → (if text_eq p.service_id id then p.permit + other.permit else 0) + total_of id held
          ≡ total_of id (p ∷ other ∷ held) =
      λ id. elim (Bool-cases (text_eq p.service_id id)) [
        | inl own ↦ rw (own, sym (ap (λ s. text_eq s id) same) ∙ own) (omega arith)
        | inr differs ↦ rw (differs, sym (ap (λ s. text_eq s id) same) ∙ differs) (omega arith)
      ] in
    record {
      keyed = h.keyed;
      counted = omega (arith, h.counted);
      shared = λ id. h.shared id ∙ sym (shares id);
      within = omega (arith, h.within);
      within_share = λ id. omega (arith, shares id, h.within_share id);
      owned = (
        omega (arith, length-append p.data_bytes other.data_bytes, h.owned.0, h.owned.1.0),
        h.owned.1.1,
      );
    }

-- Where the merge of an input with another one gives an input, that one has the bytes of both, in
-- their order and at most as many as one batch may have, and the budget counts it in their place.
pub try_merge-IsMerged :
    (budget : InputBudget) (p other : PreparedPtyInput) (held : List PreparedPtyInput)
    → IsReserved budget (p ∷ other ∷ held)
    → IsMerged budget p other held (try_merge p other)
unfolding try_merge
try_merge-IsMerged budget p other held h = elim (Bool-cases (is_input p.kind)) [
  | inr paste ↦ rw paste h
  | inl key ↦ elim (Bool-cases (is_input other.kind)) [
    | inr paste ↦ rw (key, paste) h
    | inl key_too ↦ elim (Bool-cases (text_eq p.service_id other.service_id)) [
      | inr differs ↦ rw (key, key_too, differs) h
      | inl same ↦
          let bytes = length p.data_bytes + length other.data_bytes in
          elim (Bool-cases (ltb max_pty_input_batch_bytes bytes)) [
            | inl large ↦ rw (key, key_too, same, large) h
            | inr fits ↦
                rw (key, key_too, same, fits)
                  (
                    refl,
                    ground (arith, fits, length-append p.data_bytes other.data_bytes),
                    joined-IsReserved budget p other held
                        (text_eq_iff_lem p.service_id other.service_id same) h,
                  )
          ]
    ]
  ]
]
