-- ===== src/Planning/Withdraw/Price.antt =====
-- The price of a withdrawal against its formula.
use kaspa_portal.Base.{
  ℕ, ◌+◌, ◌*◌, ◌<◌, ◌≤◌, ◌≡◌, refl, ◌↔◌, max, some, [], ◌∷◌, List, leb, leb→le, le→leb, arith,
}
use kaspa_portal.Base.Checked.{u64_mod}
use kaspa_portal.Base.Computes.{
  Computes, Gives-checked_mul, Computes-ok_or, Computes->>=, Computes-ok, Computes-ensure,
  Computes_iff,
}
use kaspa_portal.Base.Outcome.{ok}
use kaspa_portal.Planning.Errors.{small_remainder, withdrawal_fee_overflow}
use kaspa_portal.Planning.Amounts.{Entry, utxo_plurality}
use kaspa_portal.Planning.Amounts.Storage.{kip9, StorageFits, Computes-storage_mass_estimate}
use kaspa_portal.Planning.Mass.{max_storage_mass}
use kaspa_portal.Planning.Withdraw.{
  ThreadWithdrawFee, compute_mass, remainder_of, priced, calculate,
}

-- The cells of the spend: the thread, and the payout with the returned remainder.
pub thread_in : ThreadWithdrawFee → List Entry
thread_in self = (self.thread_amount, 2) ∷ []

pub thread_out : ThreadWithdrawFee → ℕ → List Entry
thread_out self remainder = (self.withdraw, 1) ∷ (remainder, 2) ∷ []

pub storage_of : ThreadWithdrawFee → ℕ → ℕ
storage_of self remainder = kip9 (thread_in self) (thread_out self remainder)

pub price : ThreadWithdrawFee → ℕ → ℕ
price self remainder =
    max (max (storage_of self remainder) 2500 * self.fee_rate_sompi_per_gram) self.minimum_fee

pub record PriceFits (self : ThreadWithdrawFee) (remainder : ℕ) : Type 0 where
  pub storage : StorageFits (thread_in self) (thread_out self remainder)
  pub limit : storage_of self remainder ≤ 500_000
  pub fee : max (storage_of self remainder) 2500 * self.fee_rate_sompi_per_gram < u64_mod

Computes-priced :
    (self : ThreadWithdrawFee) (remainder : ℕ)
    → Computes (priced self (some remainder)) (price self remainder) (PriceFits self remainder)
unfolding priced price storage_of thread_in thread_out utxo_plurality
Computes-priced self remainder =
    Computes_iff
      (Computes->>= _ (Computes-storage_mass_estimate (thread_in self) (thread_out self remainder))
        (Computes->>= _
          (Computes-ensure (leb (storage_of self remainder) max_storage_mass) small_remainder)
          (Computes->>= _
            (Computes-ok_or withdrawal_fee_overflow (
              Gives-checked_mul (max (storage_of self remainder) compute_mass)
                self.fee_rate_sompi_per_gram))
            (Computes-ok (price self remainder)))))
      (λ p. record { storage = p.0; limit = leb→le _ _ p.1.0; fee = p.1.1.0 })
      (λ q. (q.storage, (le→leb _ _ q.limit, (q.fee, tt)))) refl

remainder_lem :
    (self : ThreadWithdrawFee) (remainder : ℕ)
    → 0 < self.withdraw
    → 0 < remainder
    → self.withdraw + self.minimum_fee + remainder ≡ self.thread_amount
    → remainder_of self ≡ some remainder
remainder_lem self remainder paid left total = ground arith

-- A positive withdrawal that leaves a positive remainder behind the floor of the fee is priced exactly if the
-- terms of the storage mass of its cells fit 64 bits, that mass is within the limit, and the fee at the rate
-- fits 64 bits; the fee is then the larger of storage and compute mass at the rate, and at least the floor.
pub calculate-eq-ok :
    (self : ThreadWithdrawFee) (remainder fee : ℕ)
    → 0 < self.withdraw
    → 0 < remainder
    → self.withdraw + self.minimum_fee + remainder ≡ self.thread_amount
    → (calculate self ≡ ok fee) ↔ (PriceFits self remainder × (fee ≡ price self remainder))
unfolding calculate
calculate-eq-ok self remainder fee paid left total =
    rw (remainder_lem self remainder paid left total) (
      (λ h. (Computes-priced self remainder).sound fee h),
      (λ p. rw p.1 ((Computes-priced self remainder).complete p.0)),
    )
