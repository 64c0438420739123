-- ===== src/Planning/Change.antt =====
-- src/transaction/builder/planning/change.rs and multisig.rs, with the plans of builder/model.
pub mod Conserves
mod Tests
use kaspa_portal.Base.{
  ℕ, Bool, Option, none, some, List, [], ◌∷◌, ◌++◌, map, length, leb, if◌then◌else◌,
}
use kaspa_portal.Base.Bytes.{Bytes}
use kaspa_portal.Base.Checked.{checked_add, checked_sub}
use kaspa_portal.Base.Outcome.{Result, ok, err, ◌>>=◌, ◌>>◌, ok_or, ensure}
use kaspa_portal.Planning.Errors.{PlanError, spend_plus_fee, underfunded, too_many_multisig_inputs}
use kaspa_portal.Planning.Amounts.{is_dust}
use kaspa_portal.Planning.Selection.{UtxoEntry, checked_total}

pub calculate_change : ℕ → ℕ → ℕ → Result PlanError ℕ
calculate_change selected_total spend_total fee = do
  required ← ok_or (checked_add spend_total fee) spend_plus_fee
  change ← ok_or (checked_sub selected_total required) underfunded
  ok (if is_dust change then 0 else change)

-- `Value` stands for the JSON values of serde_json, which are only passed on.
module _ (Value : Type 0) where
  pub record PlannedInput : Type 0 where
    pub utxo : UtxoEntry
    pub sequence : ℕ
    pub sig_op_count : ℕ
    pub redeem_script : Option Bytes
    pub bip32_derivations : Option Value

  pub record PlannedOutput : Type 0 where
    pub amount : ℕ
    pub script_public_key : Bytes
    pub derivation_hint : Option (ℕ × ℕ)
    pub bip32_derivations : Option Value

  pub record UnsignedTransactionPlan : Type 0 where
    pub tx_version : ℕ
    pub inputs : List PlannedInput
    pub outputs : List PlannedOutput
    pub payload : Bytes

  abbrev pub new_output : ℕ → Bytes → PlannedOutput
  new_output amount script_public_key = record {
    amount = amount;
    script_public_key = script_public_key;
    derivation_hint = none;
    bip32_derivations = none;
  }

  abbrev pub p2sh_multisig : Bytes → ℕ → UtxoEntry → PlannedInput
  p2sh_multisig redeem_script sig_op_count utxo = record {
    utxo = utxo;
    sequence = 0;
    sig_op_count = sig_op_count;
    redeem_script = some redeem_script;
    bip32_derivations = none;
  }

  -- `UnsignedTransactionPlan::multisig`
  pub multisig : List UtxoEntry → List PlannedOutput → Bytes → ℕ → UnsignedTransactionPlan
  multisig inputs outputs redeem_script sig_op_count = record {
    tx_version = 0;
    inputs = map (p2sh_multisig redeem_script sig_op_count) inputs;
    outputs = outputs;
    payload = [];
  }

  pub change_output : ℕ → Bytes → List PlannedOutput
  change_output change script = if leb 1 change then new_output change script ∷ [] else []

  pub plan_multisig :
      List UtxoEntry
      → PlannedOutput
      → ℕ
      → Bytes
      → Bytes
      → ℕ
      → Result PlanError (UnsignedTransactionPlan × ℕ)
  plan_multisig selected destination fee approved_change_script redeem_script sig_op_count = do
    ensure (leb (length selected) 3) too_many_multisig_inputs
    selected_total ← checked_total selected
    change ← calculate_change selected_total destination.amount fee
    let outputs = (destination ∷ []) ++ change_output change approved_change_script
    ok (multisig selected outputs redeem_script sig_op_count, change)
