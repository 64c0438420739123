-- ===== src/Planning/Selection.antt =====
-- src/transaction/builder/selection: the choice of UTXOs. `sort_by_key` is a stable sort.
pub mod Sorted
pub mod Automatic
pub mod Consolidation
mod Tests
use kaspa_portal.Base.{
  ℕ, ◌+◌, ◌-◌, Bool, Option, List, [], ◌∷◌, ◌++◌, length, take, leb, ltb, if◌then◌else◌,
}
use kaspa_portal.Base.Bytes.{Bytes}
use kaspa_portal.Base.Checked.{checked_add, u64_mod}
use kaspa_portal.Base.Outcome.{Result, ok, err, ◌>>=◌, ◌>>◌, ok_or, ensure, try_fold}
use kaspa_portal.Planning.Errors.{
  PlanError, utxo_total, zero_limit, insufficient_funds, nothing_to_consolidate, single_utxo,
}

-- `UtxoEntry` of src/primitives/utxo.rs
pub record UtxoEntry : Type 0 where
  pub tx_id : Bytes
  pub index : ℕ
  pub amount : ℕ
  pub script_public_key : Bytes
  pub block_daa_score : ℕ
  pub covenant_id : Option Bytes

pub insert_largest : UtxoEntry → List UtxoEntry → List UtxoEntry
insert_largest utxo [] = utxo ∷ []
insert_largest utxo (next ∷ rest) =
    if leb next.amount utxo.amount then utxo ∷ next ∷ rest else next ∷ insert_largest utxo rest

pub sort_largest_first : List UtxoEntry → List UtxoEntry
sort_largest_first [] = []
sort_largest_first (utxo ∷ rest) = insert_largest utxo (sort_largest_first rest)

unfoldable pub checked_total : List UtxoEntry → Result PlanError ℕ
checked_total utxos =
    try_fold (λ total utxo. ok_or (checked_add total utxo.amount) utxo_total) 0 utxos

-- the loop of `select_automatic_with_limit` and what is behind it
pub select_from : ℕ → List UtxoEntry → List UtxoEntry → ℕ → Result PlanError (List UtxoEntry)
select_from required [] selected total = checked_total selected >> err insufficient_funds
select_from required (utxo ∷ rest) selected total = do
  total' ← ok_or (checked_add total utxo.amount) utxo_total
  let selected' = selected ++ (utxo ∷ [])
  if leb required total' then ok selected' else select_from required rest selected' total'

pub select_automatic_with_limit : List UtxoEntry → ℕ → ℕ → Result PlanError (List UtxoEntry)
select_automatic_with_limit utxos required max_inputs = do
  ensure (ltb 0 max_inputs) zero_limit
  select_from required (take max_inputs (sort_largest_first utxos)) [] 0

-- with `usize::MAX`
pub select_automatic : List UtxoEntry → ℕ → Result PlanError (List UtxoEntry)
select_automatic utxos required = select_automatic_with_limit utxos required (u64_mod - 1)

pub select_for_consolidation : List UtxoEntry → ℕ → Result PlanError (List UtxoEntry)
select_for_consolidation [] maximum_inputs = err nothing_to_consolidate
select_for_consolidation (utxo ∷ []) maximum_inputs = err single_utxo
select_for_consolidation (utxo ∷ next ∷ rest) maximum_inputs =
    ok (take maximum_inputs (sort_largest_first (utxo ∷ next ∷ rest)))
