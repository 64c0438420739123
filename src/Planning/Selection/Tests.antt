-- ===== src/Planning/Selection/Tests.antt =====
-- Three UTXOs, on which the theorems of the selection are applied.
use kaspa_portal.Base.{ℕ, ◌*◌, ◌<◌, ◌≡◌, refl, none, List, [], ◌∷◌, arith}
use kaspa_portal.Base.Outcome.{ok}
use kaspa_portal.Planning.Selection.{
  UtxoEntry, insert_largest, sort_largest_first, select_from, select_automatic_with_limit,
}
use kaspa_portal.Planning.Selection.Consolidation.{select_for_consolidation_richest}
use kaspa_portal.Planning.Selection.{select_for_consolidation}
use kaspa_portal.Base.{length, ◌≤◌}
use kaspa_portal.Planning.Selection.Sorted.{worth, end, leave, keep}
use kaspa_portal.Planning.Selection.Automatic.{
  select_automatic_with_limit-finds, select_automatic_with_limit_fewest,
}
use kaspa_portal.Base.{take}

abbrev utxo : ℕ → UtxoEntry
utxo n = record {
  tx_id = n ∷ [];
  index = n;
  amount = n * 100;
  script_public_key = 0x20 ∷ [];
  block_daa_score = 7;
  covenant_id = none;
}

abbrev wallet : List UtxoEntry
wallet = utxo 1 ∷ utxo 5 ∷ utxo 3 ∷ []

abbrev chosen : List UtxoEntry
chosen = utxo 5 ∷ utxo 3 ∷ []

wallet-chosen : select_automatic_with_limit wallet 700 3 ≡ ok chosen
unfolding select_automatic_with_limit select_from sort_largest_first insert_largest
wallet-chosen = refl

wallet_range : worth (take 3 (sort_largest_first wallet)) ≡ 900
unfolding worth sort_largest_first insert_largest
wallet_range = refl

select_automatic_with_limit-finds_example :
    (selected : List UtxoEntry) × (select_automatic_with_limit wallet 700 3 ≡ ok selected)
select_automatic_with_limit-finds_example =
    select_automatic_with_limit-finds wallet 700 3 (omega arith) (omega arith)
      (omega (arith, wallet_range)) (omega (arith, wallet_range))

select_automatic_with_limit_fewest_example : worth (utxo 5 ∷ []) < 700
select_automatic_with_limit_fewest_example =
    select_automatic_with_limit_fewest wallet 700 3 chosen (utxo 5 ∷ []) (omega arith) wallet-chosen
      (leave (utxo 1) (utxo 5 ∷ []) (utxo 5 ∷ utxo 3 ∷ [])
        (keep (utxo 5) [] (utxo 3 ∷ []) (leave (utxo 3) [] [] end)))
      (omega arith)

wallet_consolidated : select_for_consolidation wallet 2 ≡ ok chosen
unfolding select_for_consolidation sort_largest_first insert_largest
wallet_consolidated = refl

select_for_consolidation_richest_example :
    (length chosen ≤ 2) × (worth (utxo 1 ∷ utxo 5 ∷ []) ≤ worth chosen)
select_for_consolidation_richest_example =
    select_for_consolidation_richest wallet 2 chosen (utxo 1 ∷ utxo 5 ∷ []) wallet_consolidated
      (keep (utxo 1) (utxo 5 ∷ []) (utxo 5 ∷ utxo 3 ∷ [])
        (keep (utxo 5) [] (utxo 3 ∷ []) (leave (utxo 3) [] [] end)))
      (omega arith)
