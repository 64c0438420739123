-- ===== src/Planning/Withdraw/Largest.antt =====
-- What the search for the largest withdrawal finds.
use kaspa_portal.Base.{
  ℕ, zero, suc, ◌+◌, ◌^◌, ◌≤◌, ◌≡◌, refl, ◌⊎◌, inl, inr, Bool, true, ◌&&◌, leb, Bool-cases, arith,
}
use kaspa_portal.Base.Outcome.{Result, ok, err}
use kaspa_portal.Planning.Errors.{PlanError}
use kaspa_portal.Planning.Withdraw.{
  ThreadWithdrawFee, calculate, left_after, leaves_return, search_bits, ceiling, fits,
  maximum_withdraw,
}

module _ (accepts : ℕ → Bool) where
  search_bits-accepts :
      (n best : ℕ)
      → (best ≡ 0) ⊎ (accepts best ≡ true)
      → (search_bits accepts n best ≡ 0) ⊎ (accepts (search_bits accepts n best) ≡ true)
  unfolding search_bits
  search_bits-accepts zero best h = h
  search_bits-accepts (suc n) best h = elim (Bool-cases (accepts (best + 2 ^ n))) [
    | inl e ↦ rw e (search_bits-accepts n (best + 2 ^ n) (inr e))
    | inr e ↦ rw e (search_bits-accepts n best h)
  ]

left_after_sound :
    (self : ThreadWithdrawFee) (withdraw minimum_return : ℕ) (r : Result PlanError ℕ)
    → left_after self withdraw minimum_return r ≡ true
    → (fee : ℕ) × (r ≡ ok fee) × (withdraw + fee + minimum_return ≤ self.thread_amount)
unfolding left_after
left_after_sound self withdraw minimum_return (err e) h = cc
left_after_sound self withdraw minimum_return (ok fee) h = (fee, refl, ground arith)

accepted :
    (self : ThreadWithdrawFee) (minimum_return limit c : ℕ)
    → (leb c limit && leaves_return self c minimum_return) ≡ true
    → (c ≤ limit) × (leaves_return self c minimum_return ≡ true)
accepted self minimum_return limit c h = ground arith

leaves_return_sound :
    (self : ThreadWithdrawFee) (withdraw minimum_return : ℕ)
    → leaves_return self withdraw minimum_return ≡ true
    → (fee : ℕ) × (calculate (record self { withdraw = withdraw }) ≡ ok fee)
      × (withdraw + fee + minimum_return ≤ self.thread_amount)
unfolding leaves_return
leaves_return_sound self withdraw minimum_return h =
    left_after_sound self withdraw minimum_return _ h

cap_lem :
    (self : ThreadWithdrawFee) (cap minimum_return c : ℕ)
    → c ≤ ceiling self cap minimum_return
    → c ≤ cap
cap_lem self cap minimum_return c h = omega arith

-- The withdrawal that `maximum_withdraw` returns is 0, or at most the cap and priced with a fee that together
-- with it leaves the minimum in the covenant.
pub maximum_withdraw-fits :
    (self : ThreadWithdrawFee) (cap minimum_return : ℕ)
    → (maximum_withdraw self cap minimum_return ≡ 0)
      ⊎ ((maximum_withdraw self cap minimum_return ≤ cap)
          × ((fee : ℕ) × (calculate
                  (record self { withdraw = maximum_withdraw self cap minimum_return })
                ≡ ok fee)
              × (maximum_withdraw self cap minimum_return + fee + minimum_return
                  ≤ self.thread_amount)))
unfolding maximum_withdraw
maximum_withdraw-fits self cap minimum_return =
    elim (search_bits-accepts (fits self cap minimum_return) 64 0 (inl refl)) [
      | inl e ↦ inl e
      | inr e ↦
          let (le, leaves) = accepted self minimum_return (ceiling self cap minimum_return) _ e in
          inr
            (cap_lem self cap minimum_return _ le, leaves_return_sound self _ minimum_return leaves)
    ]
