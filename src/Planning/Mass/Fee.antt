-- ===== src/Planning/Mass/Fee.antt =====
-- The fee estimates against formulas over unbounded numbers.
use kaspa_portal.Base.{ℕ, ◌+◌, ◌*◌, ◌<◌, ◌≤◌, ◌≡◌, refl, ap, ◌∙◌, ◌↔◌, max, true, List, arith}
use kaspa_portal.Base.Checked.{u64_mod, checked_add, div_ceil}
use kaspa_portal.Base.Computes.{
  Computes, Gives-checked_add, Gives-checked_mul, Gives-and_then, Gives-some, Computes-ok_or,
  Computes->>=, Computes-ok, Computes-ensure, Computes_iff, Computes_given, Computes-total,
  Computes-total_from_zero, All-sum_by, sum_by,
}
use kaspa_portal.Base.Outcome.{ok, ok_or}
use kaspa_portal.Planning.Errors.{
  size_overflow, script_mass_overflow, sig_op_overflow, compute_overflow, transient_overflow,
  exceeds_limits, normalization_overflow, fee_overflow,
}
use kaspa_portal.Planning.Mass.{
  base_transaction_bytes, input_fixed_bytes, output_fixed_bytes, mass_per_tx_byte,
  mass_per_script_public_key_byte, mass_per_sig_op, transient_byte_to_mass_factor, max_compute_mass,
  max_transient_mass, min_standard_fee_rate_sompi_per_gram, mass_validity, SignedInputShape,
  normalize_mass, estimated_plan_size, script_term, script_mass,
  estimate_non_contextual_fee_for_shape,
}

-- The serialized bytes of the planned transaction.
pub plan_size : SignedInputShape → ℕ → List ℕ → ℕ → ℕ
plan_size shape inputs lengths payload =
    94
    + payload
    + (52 + shape.signature_script_len) * inputs
    + sum_by (λ length. 18 + length) lengths

pub plan_scripts : List ℕ → ℕ
plan_scripts lengths = sum_by (λ length. (2 + length) * 10) lengths

-- bytes, scripts and signature operations
pub plan_compute : SignedInputShape → ℕ → List ℕ → ℕ → ℕ
plan_compute shape inputs lengths payload =
    plan_size shape inputs lengths payload
    + plan_scripts lengths
    + inputs * shape.sig_op_count * 1000

-- Twice the bytes is the transient mass on the scale of the compute mass.
pub plan_fee : SignedInputShape → ℕ → List ℕ → ℕ → ℕ → ℕ
plan_fee shape inputs lengths payload rate =
    max (plan_compute shape inputs lengths payload) (2 * plan_size shape inputs lengths payload)
    * max rate 100

Computes-normalize_mass :
    (mass reference dimension : ℕ)
    → Computes
        (normalize_mass mass reference dimension)
        (div_ceil (mass * reference) dimension)
        (mass * reference < u64_mod)
unfolding normalize_mass
Computes-normalize_mass mass reference dimension =
    Computes_iff
      (Computes-ok_or normalization_overflow
        (Gives-and_then _ (Gives-checked_mul mass reference) (Gives-some _)))
      (λ p. p.0) (λ q. (q, tt)) refl

Computes-estimated_plan_size :
    (shape : SignedInputShape) (inputs : ℕ) (lengths : List ℕ) (payload : ℕ)
    → Computes
        (estimated_plan_size shape.signature_script_len inputs lengths payload)
        (plan_size shape inputs lengths payload)
        ((52 + shape.signature_script_len < u64_mod)
          × (plan_size shape inputs lengths payload < u64_mod))
unfolding estimated_plan_size plan_size
Computes-estimated_plan_size shape inputs lengths payload =
    Computes_iff
      (Computes->>= _
        (Computes-ok_or size_overflow (
          Gives-and_then _ (Gives-checked_add input_fixed_bytes shape.signature_script_len)
            (Gives-checked_mul _ inputs)))
        (Computes_given _
          (Computes-ok_or size_overflow (
            Gives-and_then _ (Gives-checked_add base_transaction_bytes payload)
              (Gives-checked_add _ _)))
          (λ p.
            Computes-total (λ length. ok_or (checked_add output_fixed_bytes length) size_overflow)
              size_overflow (λ length. 18 + length) (λ length. 18 + length < u64_mod)
              (λ length. Computes-ok_or size_overflow (Gives-checked_add output_fixed_bytes length))
              lengths _ p.1)))
      (λ p. (p.0.0, p.1.1.1))
      (λ q. (
        (q.0, omega arith),
        (
          (omega arith, omega arith),
          (
            All-sum_by _ (λ length. 18 + length < u64_mod) u64_mod (λ x h. h) lengths (omega arith),
            q.1,
          ),
        ),
      ))
      refl

Computes-script_term :
    (length : ℕ) → Computes (script_term length) ((2 + length) * 10) ((2 + length) * 10 < u64_mod)
unfolding script_term
Computes-script_term length =
    Computes_iff
      (Computes->>= _ (Computes-ok_or script_mass_overflow (Gives-checked_add 2 length)) (
        Computes-ok_or script_mass_overflow
          (Gives-checked_mul (2 + length) mass_per_script_public_key_byte)))
      (λ p. p.1) (λ q. (omega arith, q)) refl

Computes-script_mass :
    (lengths : List ℕ)
    → Computes (script_mass lengths) (plan_scripts lengths) (plan_scripts lengths < u64_mod)
unfolding script_mass plan_scripts
Computes-script_mass lengths =
    Computes_iff
      (Computes-total_from_zero script_term script_mass_overflow (λ length. (2 + length) * 10)
        (λ length. (2 + length) * 10 < u64_mod) Computes-script_term lengths)
      (λ p. p.1)
      (λ q. (All-sum_by _ (λ length. (2 + length) * 10 < u64_mod) u64_mod (λ x h. h) lengths q, q))
      refl

-- The limits of the node, and a fee that fits 64 bits.
pub record FeeFits (shape : SignedInputShape) (inputs : ℕ) (lengths : List ℕ) (payload rate : ℕ)
    : Type 0 where
  pub script_len : 52 + shape.signature_script_len < u64_mod
  pub compute : plan_compute shape inputs lengths payload ≤ max_compute_mass
  pub transient : plan_size shape inputs lengths payload * 4 ≤ max_transient_mass
  pub fee : plan_fee shape inputs lengths payload rate < u64_mod

within_limits :
    (c t : ℕ)
    → ((mass_validity c t 0).all ≡ true) ↔ ((c ≤ max_compute_mass) × (t ≤ max_transient_mass))
within_limits c t = ground arith

twice : (size : ℕ) → div_ceil (size * 4 * 500_000) 1_000_000 ≡ 2 * size
twice size = omega arith

module _ (shape : SignedInputShape) (inputs : ℕ) (lengths : List ℕ) (payload : ℕ) where
  abbrev compute_of : ℕ
  compute_of =
      plan_size shape inputs lengths payload * mass_per_tx_byte
      + plan_scripts lengths
      + inputs * shape.sig_op_count * mass_per_sig_op

  compute_lem : compute_of ≡ plan_compute shape inputs lengths payload
  unfolding plan_compute
  compute_lem = omega arith

  fee_lem :
      (rate : ℕ)
      → max compute_of (div_ceil (plan_size shape inputs lengths payload * 4 * 500_000) 1_000_000)
          * max rate 100
        ≡ plan_fee shape inputs lengths payload rate
  unfolding plan_fee
  fee_lem rate = rw (twice (plan_size shape inputs lengths payload), compute_lem) refl

pub Computes-fee :
    (shape : SignedInputShape) (inputs : ℕ) (lengths : List ℕ) (payload rate : ℕ)
    → Computes
        (estimate_non_contextual_fee_for_shape shape inputs lengths payload rate)
        (
          plan_fee shape inputs lengths payload rate,
          plan_compute shape inputs lengths payload,
          plan_size shape inputs lengths payload * 4,
        )
        (FeeFits shape inputs lengths payload rate)
unfolding estimate_non_contextual_fee_for_shape
Computes-fee shape inputs lengths payload rate =
    let size = plan_size shape inputs lengths payload in
    let scripts = plan_scripts lengths in
    let ops = inputs * shape.sig_op_count * mass_per_sig_op in
    let compute = size * mass_per_tx_byte + scripts + ops in
    let transient = size * transient_byte_to_mass_factor in
    let normalized = div_ceil (transient * max_compute_mass) max_transient_mass in
    let chosen = max rate min_standard_fee_rate_sompi_per_gram in
    Computes_iff
      (Computes->>= _ (Computes-estimated_plan_size shape inputs lengths payload) (
        Computes->>= _ (Computes-script_mass lengths) (
          Computes->>= _
            (Computes-ok_or sig_op_overflow (
              Gives-and_then _ (Gives-checked_mul inputs shape.sig_op_count)
                (Gives-checked_mul (inputs * shape.sig_op_count) mass_per_sig_op)))
            (Computes->>= _
              (Computes-ok_or compute_overflow (
                Gives-and_then _
                  (Gives-and_then _ (Gives-checked_mul size mass_per_tx_byte)
                    (Gives-checked_add (size * mass_per_tx_byte) scripts))
                  (Gives-checked_add (size * mass_per_tx_byte + scripts) ops)))
              (Computes->>= _
                (Computes-ok_or transient_overflow
                  (Gives-checked_mul size transient_byte_to_mass_factor))
                (Computes->>= _
                  (Computes-ensure (mass_validity compute transient 0).all exceeds_limits)
                  (Computes->>= _
                    (Computes-normalize_mass transient max_compute_mass max_transient_mass)
                    (Computes->>= _
                      (Computes-ok_or fee_overflow
                        (Gives-checked_mul (max compute normalized) chosen))
                      (Computes-ok (max compute normalized * chosen, compute, transient))))))))))
      (λ p.
        let (lc, lt) = (within_limits compute transient).0 p.1.1.1.1.1.0 in
        record {
          script_len = p.0.0;
          compute = omega (arith, same_compute);
          transient = lt;
          fee = omega (arith, same_fee, p.1.1.1.1.1.1.1.0);
        })
      (λ q. (
        (q.script_len, omega arith),
        (
          omega (arith, same_compute),
          (
            (omega (arith, same_compute), omega (arith, same_compute)),
            (
              ((omega arith, omega (arith, same_compute)), omega (arith, same_compute)),
              (
                omega arith,
                (
                  (within_limits compute transient).1 (omega (arith, same_compute), q.transient),
                  (omega arith, (omega (arith, same_fee), tt)),
                ),
              ),
            ),
          ),
        ),
      ))
      (ap (λ f. (f, compute, transient)) same_fee
        ∙ ap (λ c. (plan_fee shape inputs lengths payload rate, c, transient)) same_compute)
  where
    same_compute :
        compute_of shape inputs lengths payload ≡ plan_compute shape inputs lengths payload
    same_compute = compute_lem shape inputs lengths payload

    same_fee :
        max
            (compute_of shape inputs lengths payload)
            (div_ceil (plan_size shape inputs lengths payload * 4 * 500_000) 1_000_000)
          * max rate 100
        ≡ plan_fee shape inputs lengths payload rate
    same_fee = fee_lem shape inputs lengths payload rate

-- The fee estimate succeeds exactly if the planned transaction is within the node's limits for compute
-- and transient mass, and its fee and 52 plus the length of the signature script fit 64 bits: no other step
-- overflows. Its fee is then the larger of the compute mass and twice the bytes, at the rate or at the
-- standard minimum if that is more.
pub estimate_non_contextual_fee_for_shape-eq-ok :
    (shape : SignedInputShape) (inputs : ℕ) (lengths : List ℕ) (payload rate : ℕ) (r : ℕ × ℕ × ℕ)
    → (estimate_non_contextual_fee_for_shape shape inputs lengths payload rate ≡ ok r) ↔ (
        FeeFits shape inputs lengths payload rate
        × (r ≡ (
          plan_fee shape inputs lengths payload rate,
          plan_compute shape inputs lengths payload,
          plan_size shape inputs lengths payload * 4,
        )))
estimate_non_contextual_fee_for_shape-eq-ok shape inputs lengths payload rate r = (
  λ h. (Computes-fee shape inputs lengths payload rate).sound r h,
  λ p. rw p.1 ((Computes-fee shape inputs lengths payload rate).complete p.0),
)
