-- ===== src/Planning/Mass.antt =====
-- src/transaction/mass.rs, up to the fee of a thread withdrawal. Counts and lengths are u64 numbers.
pub mod Fee
pub mod Covenant
use kaspa_portal.Base.{
  ℕ, ◌+◌, ◌*◌, ◌/◌, max, min, Bool, true, false, ◌&&◌, List, leb, ltb, Option, some, none, length,
  if◌then◌else◌,
}
use kaspa_portal.Base.Bytes.{Bytes}
use kaspa_portal.Base.Checked.{checked_add, checked_mul, and_then, div_ceil, saturating_mul}
use kaspa_portal.Base.Outcome.{Result, ok, err, ◌>>=◌, ◌>>◌, ok_or, try_fold, ensure}
use kaspa_portal.Planning.Errors.{
  PlanError, size_overflow, script_mass_overflow, sig_op_overflow, compute_overflow,
  transient_overflow, exceeds_limits, normalization_overflow, fee_overflow, covenant_inputs,
  covenant_input_bytes, covenant_p2sh_bytes, covenant_output_bytes, covenant_bytes,
  covenant_sig_ops, covenant_compute, covenant_fee,
}

abbrev pub mass_per_tx_byte : ℕ
mass_per_tx_byte = 1

abbrev pub mass_per_script_public_key_byte : ℕ
mass_per_script_public_key_byte = 10

abbrev pub mass_per_sig_op : ℕ
mass_per_sig_op = 1_000

abbrev pub transient_byte_to_mass_factor : ℕ
transient_byte_to_mass_factor = 4

abbrev pub max_compute_mass : ℕ
max_compute_mass = 500_000

abbrev pub max_storage_mass : ℕ
max_storage_mass = 500_000

abbrev pub max_transient_mass : ℕ
max_transient_mass = 1_000_000

abbrev pub min_standard_fee_rate_sompi_per_gram : ℕ
min_standard_fee_rate_sompi_per_gram = 100

pub record MassValidity : Type 0 where
  pub compute : Bool
  pub transient : Bool
  pub storage : Bool
  pub all : Bool

abbrev pub mass_validity : ℕ → ℕ → ℕ → MassValidity
mass_validity compute_mass transient_mass storage_mass =
    let compute = leb compute_mass max_compute_mass in
    let transient = leb transient_mass max_transient_mass in
    let storage = leb storage_mass max_storage_mass in
    record {
      compute = compute;
      transient = transient;
      storage = storage;
      all = compute && transient && storage;
    }

pub record SignedInputShape : Type 0 where
  pub signature_script_len : ℕ
  pub sig_op_count : ℕ

abbrev pub p2pk : SignedInputShape
p2pk = record { signature_script_len = 66; sig_op_count = 1 }

pub normalize_mass : ℕ → ℕ → ℕ → Result PlanError ℕ
normalize_mass mass reference_limit dimension_limit =
    ok_or
      (and_then (checked_mul mass reference_limit) λ value. some (div_ceil value dimension_limit))
      normalization_overflow

abbrev pub base_transaction_bytes : ℕ
base_transaction_bytes = 2 + 8 + 8 + 8 + 20 + 8 + 32 + 8

abbrev pub input_fixed_bytes : ℕ
input_fixed_bytes = 32 + 4 + 8 + 8

abbrev pub output_fixed_bytes : ℕ
output_fixed_bytes = 8 + 2 + 8

pub estimated_plan_size : ℕ → ℕ → List ℕ → ℕ → Result PlanError ℕ
estimated_plan_size signature_script_len input_count output_script_lengths payload_len = do
  input_bytes ←
      ok_or
        (and_then (checked_add input_fixed_bytes signature_script_len)
          λ value. checked_mul value input_count)
        size_overflow
  size ←
      ok_or
        (and_then (checked_add base_transaction_bytes payload_len)
          λ value. checked_add value input_bytes)
        size_overflow
  try_fold
      (λ size script_len. do
        output_bytes ← ok_or (checked_add output_fixed_bytes script_len) size_overflow
        ok_or (checked_add size output_bytes) size_overflow)
      size output_script_lengths

-- the mass of one script public key
script_term : ℕ → Result PlanError ℕ
script_term length = do
  script_bytes ← ok_or (checked_add 2 length) script_mass_overflow
  ok_or (checked_mul script_bytes mass_per_script_public_key_byte) script_mass_overflow

script_mass : List ℕ → Result PlanError ℕ
script_mass lengths =
    try_fold
      (λ total length. do
        mass ← script_term length
        ok_or (checked_add total mass) script_mass_overflow)
      0 lengths

-- the fee, the compute mass and the transient mass
pub estimate_non_contextual_fee_for_shape :
    SignedInputShape → ℕ → List ℕ → ℕ → ℕ → Result PlanError (ℕ × ℕ × ℕ)
estimate_non_contextual_fee_for_shape shape input_count output_script_lengths payload_len fee_rate =
    do
      size ←
          estimated_plan_size shape.signature_script_len input_count output_script_lengths
            payload_len
      scripts ← script_mass output_script_lengths
      sig_ops ←
          ok_or
            (and_then (checked_mul input_count shape.sig_op_count)
              λ value. checked_mul value mass_per_sig_op)
            sig_op_overflow
      compute ←
          ok_or
            (and_then
              (and_then (checked_mul size mass_per_tx_byte) λ value. checked_add value scripts)
              λ value. checked_add value sig_ops)
            compute_overflow
      transient ← ok_or (checked_mul size transient_byte_to_mass_factor) transient_overflow
      ensure (mass_validity compute transient 0).all exceeds_limits
      normalized_transient ← normalize_mass transient max_compute_mass max_transient_mass
      fee ←
          ok_or
            (checked_mul (max compute normalized_transient)
              (max fee_rate min_standard_fee_rate_sompi_per_gram))
            fee_overflow
      ok (fee, compute, transient)

pub estimate_non_contextual_fee : ℕ → List ℕ → ℕ → ℕ → Result PlanError (ℕ × ℕ × ℕ)
estimate_non_contextual_fee = estimate_non_contextual_fee_for_shape p2pk

pub record CovenantFeeShape : Type 0 where
  pub p2pk_inputs : ℕ
  pub redeem_bytes : ℕ
  pub payload_bytes : ℕ
  pub binding_bytes : ℕ

-- `u64::from(b)`
abbrev pub bit : Bool → ℕ
bit true = 1
bit false = 0

abbrev per_p2pk_input_bytes : ℕ
per_p2pk_input_bytes = 45 + 66 + 4

-- `CovenantFeeShape::calculate`. The product of the P2SH bytes by 0 or 1 cannot overflow.
pub covenant_fee_of : CovenantFeeShape → Result PlanError ℕ
covenant_fee_of shape = do
  let has_p2sh_input = ltb 0 shape.redeem_bytes
  input_count ← ok_or (checked_add shape.p2pk_inputs (bit has_p2sh_input)) covenant_inputs
  p2pk_bytes ← ok_or (checked_mul shape.p2pk_inputs per_p2pk_input_bytes) covenant_input_bytes
  p2sh_fixed ← ok_or (checked_add 118 shape.redeem_bytes) covenant_p2sh_bytes
  let p2sh_bytes = p2sh_fixed * bit has_p2sh_input
  covenant_output ← ok_or (checked_add 35 shape.binding_bytes) covenant_output_bytes
  estimated ←
      ok_or
        (and_then
          (and_then
            (and_then
              (and_then (and_then (checked_add 46 p2pk_bytes) λ value. checked_add value p2sh_bytes)
                λ value. checked_add value covenant_output)
              λ value. checked_add value 43)
            λ value. checked_add value shape.payload_bytes)
          λ value. checked_add value 10)
        covenant_bytes
  signature_operation_mass ← ok_or (checked_mul input_count mass_per_sig_op) covenant_sig_ops
  compute_mass ←
      ok_or
        (and_then
          (and_then (checked_mul estimated mass_per_tx_byte)
            λ value. checked_add value signature_operation_mass)
          λ value. checked_add value ((35 + 34) * mass_per_script_public_key_byte))
        covenant_compute
  fee ←
      ok_or
        (and_then
          (and_then (checked_mul compute_mass min_standard_fee_rate_sompi_per_gram)
            λ value. checked_mul value 115)
          λ value. some (value / 100))
        covenant_fee
  ok (max fee 100_000)
