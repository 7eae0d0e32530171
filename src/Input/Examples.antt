-- ===== src/Input/Examples.antt =====
-- crates/micromux/src/scheduler/input.rs: the witnesses of the theorems.
use micromux.Prelude.{lookup, refl, [], ◌∷◌, arith, text_eq, Bool-cases, inl, inr}
use micromux.Input.{InputBudget, PreparedPtyInput, prepare, release, PtyInputKind}
use micromux.Input.Reserved.{IsReserved, IsPrepared, prepare-IsPrepared, release-IsReserved}

abbrev held_input : PreparedPtyInput
held_input = record {
  service_id = "web";
  data_bytes = 1 ∷ 2 ∷ [];
  kind = PtyInputKind.input;
  permit = 2;
}

abbrev budget : InputBudget
budget = record {
  used = 2;
  per_service = ("web", 2) ∷ [];
  max_bytes = 10;
  per_service_max_bytes = 4;
}

budget-IsReserved : IsReserved budget (held_input ∷ [])
unfolding lookup
budget-IsReserved = record {
  keyed = (refl, tt);
  counted = refl;
  shared =
      λ id. elim (Bool-cases (text_eq "web" id)) [ inl same ↦ rw same | inr differs ↦ rw differs ];
  within = omega arith;
  within_share = λ id. ground arith;
  owned = (refl, tt);
}

prepare-IsPrepared_example :
    IsPrepared "web"
      (3 ∷ 4 ∷ 5 ∷ [])
      PtyInputKind.paste
      budget
      (held_input ∷ [])
      (prepare "web" (3 ∷ 4 ∷ 5 ∷ []) PtyInputKind.paste budget)
prepare-IsPrepared_example =
    prepare-IsPrepared "web" (3 ∷ 4 ∷ 5 ∷ []) PtyInputKind.paste budget (held_input ∷ [])
      (omega arith) (omega arith) budget-IsReserved

release-IsReserved_example : IsReserved (release "web" 2 budget) []
release-IsReserved_example = release-IsReserved budget [] [] held_input budget-IsReserved
