-- ===== src/Planning/Withdraw/Tests.antt =====
-- The theorems on withdrawals, applied to two threads.
use kaspa_portal.Base.{ℕ, ◌+◌, ◌≤◌, ◌≡◌, refl, ◌⊎◌, ◌↔◌, arith}
use kaspa_portal.Base.Outcome.{ok}
use kaspa_portal.Planning.Withdraw.{ThreadWithdrawFee, calculate, maximum_withdraw}
use kaspa_portal.Planning.Withdraw.Price.{PriceFits, price, calculate-eq-ok}
use kaspa_portal.Planning.Withdraw.Largest.{maximum_withdraw-fits}

abbrev thread : ThreadWithdrawFee
thread = record {
  thread_amount = 1_000_000_000;
  withdraw = 400_000_000;
  minimum_fee = 100_000;
  fee_rate_sompi_per_gram = 100;
}

-- The whole thread but the floor of the fee is one sompi.
abbrev last_sompi : ThreadWithdrawFee
last_sompi = record {
  thread_amount = 10;
  withdraw = 0;
  minimum_fee = 9;
  fee_rate_sompi_per_gram = 100;
}

calculate-eq-ok_example :
    (calculate thread ≡ ok 516_700)
    ↔ (PriceFits thread 599_900_000 × (516_700 ≡ price thread 599_900_000))
calculate-eq-ok_example =
    calculate-eq-ok thread 599_900_000 516_700 (omega arith) (omega arith) refl

maximum_withdraw-fits_example :
    (maximum_withdraw last_sompi 5 0 ≡ 0)
    ⊎ ((maximum_withdraw last_sompi 5 0 ≤ 5)
        × ((fee : ℕ) × (calculate (record last_sompi { withdraw = maximum_withdraw last_sompi 5 0 })
              ≡ ok fee)
            × (maximum_withdraw last_sompi 5 0 + fee + 0 ≤ 10)))
maximum_withdraw-fits_example = maximum_withdraw-fits last_sompi 5 0
