-- ===== src/Planning/Withdraw.antt =====
-- `ThreadWithdrawFee` of src/transaction/mass.rs: the fee of a withdrawal from a covenant thread, and the
-- largest withdrawal, found bit by bit from the top of a u64.
pub mod Price
pub mod Largest
mod Tests
use kaspa_portal.Base.{
  ℕ, zero, suc, ◌+◌, ◌-◌, ◌^◌, max, min, Bool, true, false, ◌&&◌, Option, some, none, [], ◌∷◌, leb,
  ltb, if◌then◌else◌,
}
use kaspa_portal.Base.Checked.{checked_mul, checked_sub, and_then}
use kaspa_portal.Base.Outcome.{Result, ok, err, ◌>>=◌, ◌>>◌, ok_or, ensure}
use kaspa_portal.Planning.Errors.{PlanError, small_remainder, withdrawal_fee_overflow}
use kaspa_portal.Planning.Amounts.{storage_mass_estimate, utxo_plurality}
use kaspa_portal.Planning.Mass.{max_storage_mass}

pub record ThreadWithdrawFee : Type 0 where
  pub thread_amount : ℕ
  pub withdraw : ℕ
  pub minimum_fee : ℕ
  pub fee_rate_sompi_per_gram : ℕ

abbrev pub compute_mass : ℕ
compute_mass = 2_500

abbrev pub payout_script_len : ℕ
payout_script_len = 34

abbrev pub covenant_script_len : ℕ
covenant_script_len = 35

abbrev positive_or_none : ℕ → Option ℕ → Option ℕ
positive_or_none withdraw none = none
positive_or_none withdraw (some value) = if ltb 0 value && ltb 0 withdraw then some value else none

abbrev pub remainder_of : ThreadWithdrawFee → Option ℕ
remainder_of self = positive_or_none self.withdraw (
    and_then (checked_sub self.thread_amount self.withdraw)
      λ value. checked_sub value self.minimum_fee)

priced : ThreadWithdrawFee → Option ℕ → Result PlanError ℕ
priced self none = ok self.minimum_fee
priced self (some remainder) = do
  let covenant = utxo_plurality covenant_script_len true
  storage ←
      storage_mass_estimate ((self.thread_amount, covenant) ∷ [])
        ((self.withdraw, utxo_plurality payout_script_len false) ∷ (remainder, covenant) ∷ [])
  ensure (leb storage max_storage_mass) small_remainder
  fee ←
      ok_or (checked_mul (max storage compute_mass) self.fee_rate_sompi_per_gram)
        withdrawal_fee_overflow
  ok (max fee self.minimum_fee)

pub calculate : ThreadWithdrawFee → Result PlanError ℕ
unfolding priced
calculate self = priced self (remainder_of self)

left_after : ThreadWithdrawFee → ℕ → ℕ → Result PlanError ℕ → Bool
left_after self withdraw minimum_return (err e) = false
left_after self withdraw minimum_return (ok fee) =
    elim (and_then (checked_sub self.thread_amount withdraw) λ left. checked_sub left fee) [
      | none ↦ false
      | some left ↦ leb minimum_return left
    ]

pub leaves_return : ThreadWithdrawFee → ℕ → ℕ → Bool
unfolding left_after
leaves_return self withdraw minimum_return =
    left_after self withdraw minimum_return (calculate (record self { withdraw = withdraw }))

-- The fold over the bits n - 1, …, 0; `best + (1 << bit)` stays below 2 ^ 64.
search_bits : (ℕ → Bool) → ℕ → ℕ → ℕ
search_bits accepts zero best = best
search_bits accepts (suc n) best =
    search_bits accepts n (if accepts (best + 2 ^ n) then best + 2 ^ n else best)

abbrev pub ceiling : ThreadWithdrawFee → ℕ → ℕ → ℕ
ceiling self cap minimum_return = min (self.thread_amount - minimum_return - self.minimum_fee) cap

-- the test of the fold's closure
abbrev pub fits : ThreadWithdrawFee → ℕ → ℕ → ℕ → Bool
fits self cap minimum_return candidate =
    leb candidate (ceiling self cap minimum_return) && leaves_return self candidate minimum_return

pub maximum_withdraw : ThreadWithdrawFee → ℕ → ℕ → ℕ
unfolding search_bits
maximum_withdraw self cap minimum_return = search_bits (fits self cap minimum_return) 64 0
