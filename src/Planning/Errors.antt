-- ===== src/Planning/Errors.antt =====
-- The errors of src/transaction/mass.rs and src/transaction/builder: one constructor for each message.
pub data Kind : Type 0 where
  input output : Kind

pub data PlanError : Type 0 where
  amount_plus_fee amount_total input_amount_total arithmetic_mass utxo_total : PlanError
  plurality_range mass_range term_range : Kind → PlanError
  size_overflow script_mass_overflow sig_op_overflow compute_overflow transient_overflow : PlanError
  exceeds_limits normalization_overflow fee_overflow : PlanError
  small_remainder withdrawal_fee_overflow : PlanError
  covenant_inputs covenant_input_bytes covenant_p2sh_bytes covenant_output_bytes : PlanError
  covenant_bytes covenant_sig_ops covenant_compute covenant_fee : PlanError
  zero_limit insufficient_funds nothing_to_consolidate single_utxo spend_plus_fee underfunded
        too_many_multisig_inputs :
      PlanError
