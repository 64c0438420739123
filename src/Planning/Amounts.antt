-- ===== src/Planning/Amounts.antt =====
-- src/transaction/builder/planning/amounts.rs. A usize is a u64 here, and the lengths of slices are far
-- below its range.
pub mod Storage
use kaspa_portal.Base.{
  ℕ, ◌+◌, ◌-◌, ◌*◌, ◌/◌, max, Bool, true, false, ◌||◌, ◌&&◌, List, map, ltb, leb, ◌==◌,
  if◌then◌else◌,
}
use kaspa_portal.Base.Checked.{checked_add, checked_mul, and_then, div_ceil}
use kaspa_portal.Base.Outcome.{Result, ok, err, ◌>>=◌, ok_or, map_err, try_fold}
use kaspa_portal.Planning.Errors.{
  Kind, PlanError, input, output, amount_plus_fee, amount_total, input_amount_total,
  arithmetic_mass, plurality_range, mass_range, term_range,
}
use mathlib.Core.Option.{some}

abbrev pub storage_mass_c : ℕ
storage_mass_c = 1_000_000_000_000

abbrev pub max_standard_mass : ℕ
max_standard_mass = 100_000

abbrev pub dust_threshold : ℕ
dust_threshold = 20_000_000

unfoldable pub is_dust : ℕ → Bool
is_dust amount =
    if amount == 0
    then true
    else if leb dust_threshold amount
    then false
    else ltb max_standard_mass (storage_mass_c / amount)

pub checked_required : ℕ → ℕ → Result PlanError ℕ
checked_required amount fee = ok_or (checked_add amount fee) amount_plus_fee

unfoldable pub checked_sum : List ℕ → Result PlanError ℕ
checked_sum values = try_fold (λ total value. ok_or (checked_add total value) amount_total) 0 values

unfoldable pub utxo_plurality : ℕ → Bool → ℕ
utxo_plurality script_len has_covenant_id =
    let covenant_bytes = if has_covenant_id then 32 else 0 in
    div_ceil (63 + script_len + covenant_bytes) 100

-- An entry is an amount and its plurality.
abbrev pub Entry : Type 0
Entry = ℕ × ℕ

plurality_total : List Entry → Kind → Result PlanError ℕ
plurality_total entries kind =
    try_fold (λ total entry. ok_or (checked_add total entry.1) (plurality_range kind)) 0 entries

storage_mass_term : ℕ → ℕ → Kind → Result PlanError ℕ
storage_mass_term amount plurality kind =
    ok_or
      (and_then
        (and_then (checked_mul storage_mass_c plurality) λ value. checked_mul value plurality)
        λ weighted. some (weighted / max amount 1))
      (term_range kind)

harmonic_mass : List Entry → Kind → Result PlanError ℕ
harmonic_mass entries kind =
    try_fold
      (λ total entry. do
        term ← storage_mass_term entry.0 entry.1 kind
        ok_or (checked_add total term) (mass_range kind))
      0 entries

pub uses_relaxed_storage_mass : ℕ → ℕ → Bool
uses_relaxed_storage_mass inputs_plurality outputs_plurality =
    inputs_plurality == 1
    || outputs_plurality == 1
    || (inputs_plurality == 2 && outputs_plurality == 2)

arithmetic_input_mass : List Entry → ℕ → Result PlanError ℕ
arithmetic_input_mass ins inputs_plurality = do
  input_sum ← map_err (λ _. input_amount_total) (checked_sum (map (λ entry. entry.0) ins))
  let mean_input = max (input_sum / max inputs_plurality 1) 1
  ok_or (checked_mul inputs_plurality (storage_mass_c / mean_input)) arithmetic_mass

input_mass : List Entry → ℕ → ℕ → Result PlanError ℕ
input_mass ins inputs_plurality outputs_plurality =
    if uses_relaxed_storage_mass inputs_plurality outputs_plurality
    then harmonic_mass ins input
    else arithmetic_input_mass ins inputs_plurality

pub storage_mass_estimate : List Entry → List Entry → Result PlanError ℕ
storage_mass_estimate ins outs = do
  outputs_plurality ← plurality_total outs output
  inputs_plurality ← plurality_total ins input
  harmonic_outputs ← harmonic_mass outs output
  input_part ← input_mass ins inputs_plurality outputs_plurality
  ok (harmonic_outputs - input_part)
