-- ===== src/Planning/Change/Tests.antt =====
-- The theorems on change, applied to a payment of 30 million sompi out of 50 million.
use kaspa_portal.Base.{ℕ, ◌+◌, ◌≤◌, ◌≡◌, refl, ◌⊎◌, ◌↔◌, true, none, List, [], ◌∷◌, length}
use kaspa_portal.Base.Outcome.{ok, try_fold}
use kaspa_portal.Planning.Amounts.{is_dust}
use kaspa_portal.Planning.Selection.{UtxoEntry, checked_total}
use kaspa_portal.Planning.Selection.Sorted.{worth}
use kaspa_portal.Planning.Change.{
  calculate_change, PlannedOutput, UnsignedTransactionPlan, new_output, multisig, change_output,
  plan_multisig,
}
use kaspa_portal.Planning.Change.Conserves.{
  max_dust, is_dust_iff, calculate_change-conserves, plan_multisig-conserves, amounts_of, utxos_of,
}

abbrev utxo : UtxoEntry
utxo = record {
  tx_id = 1 ∷ [];
  index = 0;
  amount = 50_000_000;
  script_public_key = 0x20 ∷ [];
  block_daa_score = 7;
  covenant_id = none;
}

abbrev destination : PlannedOutput ℕ
destination = new_output ℕ 30_000_000 (0x20 ∷ [])

abbrev returned : ℕ
returned = 19_999_000

change_returned : calculate_change 50_000_000 30_000_000 1_000 ≡ ok 19_999_000
unfolding calculate_change is_dust
change_returned = refl

calculate_change-conserves_example :
    (dropped : ℕ) × (30_000_000 + 1_000 + 19_999_000 + dropped ≡ 50_000_000)
    × (dropped ≤ max_dust)
    × ((returned ≡ 0) ⊎ (dropped ≡ 0))
calculate_change-conserves_example =
    calculate_change-conserves 50_000_000 30_000_000 1_000 19_999_000 change_returned

abbrev plan : UnsignedTransactionPlan ℕ
plan = multisig ℕ (utxo ∷ []) (destination ∷ new_output ℕ 19_999_000 (0x21 ∷ []) ∷ []) (0x52 ∷ []) 2

planned :
    plan_multisig ℕ (utxo ∷ []) destination 1_000 (0x21 ∷ []) (0x52 ∷ []) 2 ≡ ok (plan, 19_999_000)
unfolding plan_multisig calculate_change is_dust checked_total change_output try_fold
planned = refl

plan_multisig-conserves_example :
    (utxos_of plan ≡ utxo ∷ [])
    × (length plan.inputs ≤ 3)
    × ((others : List (PlannedOutput ℕ)) × (plan.outputs ≡ destination ∷ others))
    × ((dropped : ℕ) × (amounts_of plan.outputs + 1_000 + dropped ≡ worth (utxo ∷ []))
        × (dropped ≤ max_dust))
plan_multisig-conserves_example =
    plan_multisig-conserves ℕ (utxo ∷ []) destination 1_000 (0x21 ∷ []) (0x52 ∷ []) 2 planned

is_dust_iff_example : (is_dust 9_999_901 ≡ true) ↔ (9_999_901 ≤ max_dust)
is_dust_iff_example = is_dust_iff 9_999_901
