-- ===== src/Planning/Mass/Covenant.antt =====
-- The covenant fee against its formula over unbounded numbers.
use kaspa_portal.Base.{ℕ, ◌+◌, ◌*◌, ◌/◌, ◌<◌, ◌≤◌, ◌≡◌, ◌↔◌, max, ltb, arith}
use kaspa_portal.Base.Checked.{u64_mod}
use kaspa_portal.Base.Computes.{
  Computes, Gives-checked_add, Gives-checked_mul, Gives-and_then, Gives-some, Computes-ok_or,
  Computes->>=, Computes-ok, Computes_iff,
}
use kaspa_portal.Base.Outcome.{ok}
use kaspa_portal.Planning.Errors.{
  covenant_inputs, covenant_input_bytes, covenant_p2sh_bytes, covenant_output_bytes, covenant_bytes,
  covenant_sig_ops, covenant_compute, covenant_fee,
}
use kaspa_portal.Planning.Mass.{CovenantFeeShape, bit, covenant_fee_of}

-- The covenant input is there if it has a redeem script.
unfoldable pub p2sh_inputs : CovenantFeeShape → ℕ
p2sh_inputs shape = bit (ltb 0 shape.redeem_bytes)

-- 134 bytes of fixed fields, 115 for each P2PK input, and the covenant's parts.
unfoldable pub covenant_size : CovenantFeeShape → ℕ
covenant_size shape =
    134
    + shape.p2pk_inputs * 115
    + (118 + shape.redeem_bytes) * p2sh_inputs shape
    + shape.binding_bytes
    + shape.payload_bytes

unfoldable pub covenant_mass : CovenantFeeShape → ℕ
covenant_mass shape = covenant_size shape + (shape.p2pk_inputs + p2sh_inputs shape) * 1000 + 690

fixed_lem : (r : ℕ) → 118 + r ≤ 118 + (118 + r) * bit (ltb 0 r)
fixed_lem r = ground arith

Computes-covenant_fee_of :
    (shape : CovenantFeeShape)
    → Computes
        (covenant_fee_of shape)
        (max (covenant_mass shape * 115) 100_000)
        (covenant_mass shape * 11_500 < u64_mod)
unfolding covenant_fee_of covenant_mass covenant_size p2sh_inputs
Computes-covenant_fee_of shape =
    let count = bit (ltb 0 shape.redeem_bytes) in
    let inputs = shape.p2pk_inputs + count in
    let p2pk = shape.p2pk_inputs * 115 in
    let fixed = 118 + shape.redeem_bytes in
    let covenant = 35 + shape.binding_bytes in
    let e1 = 46 + p2pk in
    let e2 = e1 + fixed * count in
    let e3 = e2 + covenant in
    let e4 = e3 + 43 in
    let e5 = e4 + shape.payload_bytes in
    let size = e5 + 10 in
    let ops = inputs * 1000 in
    let mass = size * 1 + ops + 690 in
    Computes_iff
      (Computes->>= _ (Computes-ok_or covenant_inputs (Gives-checked_add shape.p2pk_inputs count)) (
        Computes->>= _
          (Computes-ok_or covenant_input_bytes (Gives-checked_mul shape.p2pk_inputs 115))
          (Computes->>= _
            (Computes-ok_or covenant_p2sh_bytes (Gives-checked_add 118 shape.redeem_bytes))
            (Computes->>= _
              (Computes-ok_or covenant_output_bytes (Gives-checked_add 35 shape.binding_bytes))
              (Computes->>= _
                (Computes-ok_or covenant_bytes (
                  Gives-and_then _
                    (Gives-and_then _
                      (Gives-and_then _
                        (Gives-and_then _
                          (Gives-and_then _ (Gives-checked_add 46 p2pk)
                            (Gives-checked_add e1 (fixed * count)))
                          (Gives-checked_add e2 covenant))
                        (Gives-checked_add e3 43))
                      (Gives-checked_add e4 shape.payload_bytes))
                    (Gives-checked_add e5 10)))
                (Computes->>= _ (Computes-ok_or covenant_sig_ops (Gives-checked_mul inputs 1000)) (
                  Computes->>= _
                    (Computes-ok_or covenant_compute (
                      Gives-and_then _
                        (Gives-and_then _ (Gives-checked_mul size 1)
                          (Gives-checked_add (size * 1) ops))
                        (Gives-checked_add (size * 1 + ops) 690)))
                    (Computes->>= _
                      (Computes-ok_or covenant_fee (
                        Gives-and_then _
                          (Gives-and_then _ (Gives-checked_mul mass 100)
                            (Gives-checked_mul (mass * 100) 115))
                          (Gives-some (mass * 100 * 115 / 100))))
                      (Computes-ok (max (mass * 100 * 115 / 100) 100_000))))))))))
      (λ p. omega (arith, p.1.1.1.1.1.1.1.0.0.1))
      (λ q. (
        omega arith,
        (
          omega arith,
          (
            omega (arith, fixed_lem shape.redeem_bytes),
            (
              omega arith,
              (
                (
                  ((((omega arith, omega arith), omega arith), omega arith), omega arith),
                  omega arith,
                ),
                (
                  omega arith,
                  (
                    ((omega arith, omega arith), omega arith),
                    (((omega arith, omega arith), tt), tt),
                  ),
                ),
              ),
            ),
          ),
        ),
      ))
      (omega arith)

-- The covenant fee is an error exactly if the compute mass at 11,500 does not fit 64 bits; else it is 1.15
-- times the compute mass at the standard minimum rate, and at least 100,000 sompi.
pub covenant_fee_of-eq-ok :
    (shape : CovenantFeeShape) (fee : ℕ)
    → (covenant_fee_of shape ≡ ok fee)
      ↔ ((covenant_mass shape * 11_500 < u64_mod) × (fee ≡ max (covenant_mass shape * 115) 100_000))
covenant_fee_of-eq-ok shape fee = (
  λ h. (Computes-covenant_fee_of shape).sound fee h,
  λ p. rw p.1 ((Computes-covenant_fee_of shape).complete p.0),
)
