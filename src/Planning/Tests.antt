-- ===== src/Planning/Tests.antt =====
-- The theorems on sums, storage mass and fees, applied to small inputs.
use kaspa_portal.Base.{ℕ, ◌≡◌, ◌*◌, refl, ◌↔◌, List, [], ◌∷◌, arith}
use kaspa_portal.Base.Computes.{sum_by}
use kaspa_portal.Base.Outcome.{ok}
use kaspa_portal.Planning.Amounts.{checked_sum, storage_mass_estimate}
use kaspa_portal.Planning.Amounts.Storage.{
  checked_sum-eq-ok, storage_mass_estimate-eq-ok, StorageFits, kip9,
}
use kaspa_portal.Planning.Mass.{p2pk, estimate_non_contextual_fee_for_shape}
use kaspa_portal.Planning.Mass.{CovenantFeeShape, covenant_fee_of}
use kaspa_portal.Planning.Mass.Covenant.{
  p2sh_inputs, covenant_size, covenant_mass, covenant_fee_of-eq-ok,
}
use kaspa_portal.Planning.Mass.Fee.{
  FeeFits, plan_fee, plan_compute, plan_size, estimate_non_contextual_fee_for_shape-eq-ok,
}

checked_sum-eq-ok_example : checked_sum (5 ∷ 7 ∷ []) ≡ ok 12
unfolding sum_by
checked_sum-eq-ok_example = (checked_sum-eq-ok (5 ∷ 7 ∷ []) 12).1 (omega arith, refl)

abbrev spent : List (ℕ × ℕ)
spent = (1_000_000_000, 1) ∷ []

abbrev paid : List (ℕ × ℕ)
paid = (400_000_000, 1) ∷ (500_000_000, 1) ∷ []

storage_mass_estimate-eq-ok_example :
    (storage_mass_estimate spent paid ≡ ok 3_500)
    ↔ (StorageFits spent paid × (3_500 ≡ kip9 spent paid))
storage_mass_estimate-eq-ok_example = storage_mass_estimate-eq-ok spent paid 3_500

abbrev estimate : ℕ × ℕ × ℕ
estimate = (203_600, 2_036, 1_264)

estimate_non_contextual_fee_for_shape-eq-ok_example :
    (estimate_non_contextual_fee_for_shape p2pk 1 (34 ∷ 34 ∷ []) 0 100 ≡ ok estimate) ↔ (
      FeeFits p2pk 1 (34 ∷ 34 ∷ []) 0 100
      × (estimate ≡ (
        plan_fee p2pk 1 (34 ∷ 34 ∷ []) 0 100,
        plan_compute p2pk 1 (34 ∷ 34 ∷ []) 0,
        plan_size p2pk 1 (34 ∷ 34 ∷ []) 0 * 4,
      )))
estimate_non_contextual_fee_for_shape-eq-ok_example =
    estimate_non_contextual_fee_for_shape-eq-ok p2pk 1 (34 ∷ 34 ∷ []) 0 100 estimate

-- one P2PK input, and a covenant input with a redeem script of 100 bytes
abbrev covenant : CovenantFeeShape
covenant = record { p2pk_inputs = 1; redeem_bytes = 100; payload_bytes = 0; binding_bytes = 34 }

covenant_fee_of-eq-ok_example : covenant_fee_of covenant ≡ ok 366_965
unfolding p2sh_inputs covenant_size covenant_mass
covenant_fee_of-eq-ok_example = (covenant_fee_of-eq-ok covenant 366_965).1 (omega arith, refl)
