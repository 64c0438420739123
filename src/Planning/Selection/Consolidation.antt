-- ===== src/Planning/Selection/Consolidation.antt =====
-- The worth of a selection for a consolidation.
use kaspa_portal.Base.{ℕ, zero, suc, ◌≤◌, ◌≡◌, List, [], ◌∷◌, length, length-take, take, arith}
use kaspa_portal.Base.Outcome.{ok}
use kaspa_portal.Planning.Selection.{UtxoEntry, sort_largest_first, select_for_consolidation}
use kaspa_portal.Planning.Selection.Sorted.{worth, Choice, worth-sort_largest_first}

worth_longer : (k n : ℕ) (us : List UtxoEntry) → k ≤ n → worth (take k us) ≤ worth (take n us)
unfolding worth
worth_longer zero n us le = omega arith
worth_longer (suc k) zero us le = omega arith
worth_longer (suc k) (suc n) [] le = omega arith
worth_longer (suc k) (suc n) (u ∷ us) le = omega (arith, worth_longer k n us (omega arith))

select_for_consolidation_lem :
    (utxos : List UtxoEntry) (maximum_inputs : ℕ) (selected : List UtxoEntry)
    → select_for_consolidation utxos maximum_inputs ≡ ok selected
    → selected ≡ take maximum_inputs (sort_largest_first utxos)
unfolding select_for_consolidation
select_for_consolidation_lem [] maximum_inputs selected h = cc
select_for_consolidation_lem (u ∷ []) maximum_inputs selected h = cc
select_for_consolidation_lem (u ∷ v ∷ us) maximum_inputs selected h = cc

-- A selection for a consolidation has at most the allowed number of UTXOs, and no choice of at most that many
-- is worth more.
pub select_for_consolidation_richest :
    (utxos : List UtxoEntry) (maximum_inputs : ℕ) (selected other : List UtxoEntry)
    → select_for_consolidation utxos maximum_inputs ≡ ok selected
    → Choice other utxos
    → length other ≤ maximum_inputs
    → (length selected ≤ maximum_inputs) × (worth other ≤ worth selected)
select_for_consolidation_richest utxos maximum_inputs selected other h choice few =
    rw (select_for_consolidation_lem utxos maximum_inputs selected h) (
      omega (arith, length-take maximum_inputs (sort_largest_first utxos)),
      omega (
        arith,
        worth-sort_largest_first other utxos choice,
        worth_longer (length other) maximum_inputs (sort_largest_first utxos) few,
      ),
    )
