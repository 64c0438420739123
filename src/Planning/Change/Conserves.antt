-- ===== src/Planning/Change/Conserves.antt =====
-- What becomes of the selected amount: spent, fee, change, and what is too small to be change.
use native.Mathlib.Nat.{div-lt_iff_lt-mul}
use kaspa_portal.Base.{
  ℕ, zero, suc, ◌+◌, ◌-◌, ◌/◌, ◌≤◌, ◌<◌, ◌≡◌, refl, sym, ap, ◌↔◌, ◌⊎◌, inl, inr, true, false, List,
  [], ◌∷◌, ◌++◌, map, length, leb, ltb, leb→le, ltb→lt, ◌==◌, if◌then◌else◌, Bool-cases, arith,
}
use kaspa_portal.Base.Bytes.{Bytes}
use kaspa_portal.Base.Checked.{u64_mod}
use kaspa_portal.Base.Computes.{
  Computes, Computes_iff, Computes-ok, Computes-ok_or, Computes->>=, Computes-ensure,
  Gives-checked_add, Gives-checked_sub, sum_by,
}
use kaspa_portal.Base.Outcome.{ok}
use kaspa_portal.Planning.Errors.{utxo_total, spend_plus_fee, underfunded, too_many_multisig_inputs}
use kaspa_portal.Planning.Amounts.{is_dust}
use kaspa_portal.Planning.Amounts.Storage.{Computes-added}
use kaspa_portal.Planning.Selection.{UtxoEntry, checked_total}
use kaspa_portal.Planning.Selection.Sorted.{worth}
use kaspa_portal.Planning.Change.{
  calculate_change, PlannedOutput, UnsignedTransactionPlan, p2sh_multisig, multisig, change_output,
  plan_multisig,
}

-- The largest amount that is dust.
abbrev pub max_dust : ℕ
max_dust = 9_999_900

above_mass : (a : ℕ) → 0 < a → (1_000_000_000_000 / a < 100_001) ↔ (max_dust < a)
above_mass a h = (
  λ below. omega (arith, (div-lt_iff_lt-mul {x = 1_000_000_000_000} {y = 100_001} h).0 below),
  λ big. (div-lt_iff_lt-mul {x = 1_000_000_000_000} {y = 100_001} h).1 (omega arith),
)

either_side :
    (a q : ℕ)
    → (q < 100_001) ↔ (max_dust < a)
    → ((q < 100_001) × (max_dust < a)) ⊎ ((100_001 ≤ q) × (a ≤ max_dust))
either_side a q (to, from) = elim (Bool-cases (ltb q 100_001)) [
  | inl e ↦ inl (ltb→lt _ _ e, to (ltb→lt _ _ e))
  | inr e ↦ elim (Bool-cases (ltb max_dust a)) [
    | inl f ↦ let below : q < 100_001 = from (ltb→lt _ _ f) in inl (below, ltb→lt _ _ f)
    | inr f ↦ inr (ground arith, ground arith)
  ]
]

dust_test :
    (a q : ℕ)
    → (a ≡ 0) ⊎ (((q < 100_001) × (max_dust < a)) ⊎ ((100_001 ≤ q) × (a ≤ max_dust)))
    → ((if a == 0 then true else if leb 20_000_000 a then false else ltb 100_000 q) ≡ true)
      ↔ (a ≤ max_dust)
dust_test a q (inl z) = ground arith
dust_test a q (inr (inl (x, y))) = ground arith
dust_test a q (inr (inr (x, y))) = ground arith

-- An amount is dust exactly up to 9,999,900 sompi.
pub is_dust_iff : (a : ℕ) → (is_dust a ≡ true) ↔ (a ≤ max_dust)
unfolding is_dust
is_dust_iff zero = dust_test 0 (1_000_000_000_000 / 0) (inl refl)
is_dust_iff (suc a) =
    dust_test (suc a) (1_000_000_000_000 / suc a)
      (inr (either_side (suc a) _ (above_mass (suc a) (omega arith))))

worth_sum : (us : List UtxoEntry) → sum_by (λ u. u.amount) us ≡ worth us
unfolding sum_by worth
worth_sum [] = refl
worth_sum (u ∷ us) = ap (λ n. u.amount + n) (worth_sum us)

Computes-checked_total :
    (us : List UtxoEntry) → Computes (checked_total us) (worth us) (worth us < u64_mod)
unfolding checked_total
Computes-checked_total us =
    Computes_iff (Computes-added (λ u. u.amount) utxo_total us) (λ p. rw (sym (worth_sum us)) p)
      (λ q. rw (worth_sum us) q) (worth_sum us)

-- What is returned of a surplus.
kept : ℕ → ℕ
kept surplus = if is_dust surplus then 0 else surplus

Computes-calculate_change :
    (selected spend fee : ℕ)
    → Computes
        (calculate_change selected spend fee)
        (kept (selected - (spend + fee)))
        ((spend + fee < u64_mod) × (spend + fee ≤ selected))
unfolding calculate_change kept
Computes-calculate_change selected spend fee =
    Computes_iff
      (Computes->>= _ (Computes-ok_or spend_plus_fee (Gives-checked_add spend fee)) (
        Computes->>= _ (Computes-ok_or underfunded (Gives-checked_sub selected (spend + fee)))
          (Computes-ok _)))
      (λ p. (p.0, p.1.0)) (λ q. (q.0, (q.1, tt))) refl

-- A surplus is returned whole, or it is dust.
kept_lem :
    (surplus : ℕ)
    → (dropped : ℕ) × (kept surplus + dropped ≡ surplus)
      × (dropped ≤ max_dust)
      × ((kept surplus ≡ 0) ⊎ (dropped ≡ 0))
unfolding kept
kept_lem surplus = elim (Bool-cases (is_dust surplus)) [
  | inl e ↦ rw e (surplus, omega arith, (is_dust_iff surplus).0 e, inl refl)
  | inr e ↦ rw e (0, omega arith, omega arith, inr refl)
]

-- Where `calculate_change` succeeds, the selected amount is the spent one, the fee, the change, and what is
-- dropped: at most 9,999,900 sompi, and nothing if there is change.
pub calculate_change-conserves :
    (selected spend fee change : ℕ)
    → calculate_change selected spend fee ≡ ok change
    → (dropped : ℕ) × (spend + fee + change + dropped ≡ selected)
      × (dropped ≤ max_dust)
      × ((change ≡ 0) ⊎ (dropped ≡ 0))
calculate_change-conserves selected spend fee change h =
    let ((_, covered), e) = (Computes-calculate_change selected spend fee).sound change h in
    let (dropped, total, small, one) = kept_lem (selected - (spend + fee)) in
    (dropped, omega arith, small, rw e one)

pub amounts_of : {Value : Type 0} → List (PlannedOutput Value) → ℕ
amounts_of outputs = sum_by (λ output. output.amount) outputs

change_lem :
    (Value : Type 0) (change : ℕ) (script : Bytes)
    → amounts_of (change_output Value change script) ≡ change
unfolding change_output amounts_of sum_by
change_lem Value change script = elim (Bool-cases (leb 1 change)) [
  | inl e ↦ rw e (omega arith)
  | inr e ↦ rw e (let z : 0 ≡ change = ground arith in z)
]

length-map : {A B : Type 0} (f : A → B) (xs : List A) → length (map f xs) ≡ length xs
length-map f [] = refl
length-map f (x ∷ xs) = ap suc (length-map f xs)

module _ (Value : Type 0) (selected : List UtxoEntry) (destination : PlannedOutput Value) (fee : ℕ)
    (script redeem_script : Bytes) (sig_op_count : ℕ) where
  abbrev change_of : ℕ
  change_of = kept (worth selected - (destination.amount + fee))

  abbrev plan_of : UnsignedTransactionPlan Value
  plan_of =
      multisig Value selected ((destination ∷ []) ++ change_output Value change_of script)
        redeem_script sig_op_count

  Computes-plan_multisig :
      Computes
        (plan_multisig Value selected destination fee script redeem_script sig_op_count)
        (plan_of, change_of)
        ((leb (length selected) 3 ≡ true)
          × ((worth selected < u64_mod)
              × (((destination.amount + fee < u64_mod)
                    × (destination.amount + fee ≤ worth selected))
                  × Unit {0})))
  unfolding plan_multisig
  Computes-plan_multisig =
      Computes->>= _ (Computes-ensure (leb (length selected) 3) too_many_multisig_inputs) (
        Computes->>= _ (Computes-checked_total selected) (
          Computes->>= _ (Computes-calculate_change (worth selected) destination.amount fee)
            (Computes-ok (plan_of, change_of))))

  plan_of_lem :
      destination.amount + fee ≤ worth selected
      → (dropped : ℕ) × (amounts_of (plan_of).outputs + fee + dropped ≡ worth selected)
        × (dropped ≤ max_dust)
  unfolding multisig amounts_of sum_by
  plan_of_lem covered =
      let (dropped, total, small, _) = kept_lem (worth selected - (destination.amount + fee)) in
      (dropped, omega (arith, change_lem Value change_of script), small)

pub utxos_of : {Value : Type 0} → UnsignedTransactionPlan Value → List UtxoEntry
utxos_of plan = map (λ input. input.utxo) plan.inputs

p2sh_multisig_utxos :
    (Value : Type 0) (redeem_script : Bytes) (sig_op_count : ℕ) (us : List UtxoEntry)
    → map (λ input. input.utxo) (map (p2sh_multisig Value redeem_script sig_op_count) us) ≡ us
p2sh_multisig_utxos Value redeem_script sig_op_count [] = refl
p2sh_multisig_utxos Value redeem_script sig_op_count (u ∷ us) =
    ap (λ l. u ∷ l) (p2sh_multisig_utxos Value redeem_script sig_op_count us)

-- A multisig plan spends just the selected UTXOs, in their order and at most three; its first output is
-- the destination, and its outputs hold what those UTXOs hold, less the fee and at most 9,999,900 sompi of
-- dropped change.
pub plan_multisig-conserves :
    (Value : Type 0) (selected : List UtxoEntry) (destination : PlannedOutput Value) (fee : ℕ)
    (approved_change_script redeem_script : Bytes) (sig_op_count : ℕ)
    {plan : UnsignedTransactionPlan Value} {change : ℕ}
    → plan_multisig Value selected destination fee approved_change_script redeem_script sig_op_count
      ≡ ok (plan, change)
    → (utxos_of plan ≡ selected)
      × (length plan.inputs ≤ 3)
      × ((others : List (PlannedOutput Value)) × (plan.outputs ≡ destination ∷ others))
      × ((dropped : ℕ) × (amounts_of plan.outputs + fee + dropped ≡ worth selected)
          × (dropped ≤ max_dust))
unfolding multisig utxos_of
plan_multisig-conserves Value selected destination fee script redeem_script sig_op_count {plan}
      {change} h =
    let ((few, (_, ((_, covered), _))), e) =
      (Computes-plan_multisig Value selected destination fee script redeem_script
          sig_op_count).sound
        (plan, change) h in
    let same : plan ≡ plan_of Value selected destination fee script redeem_script sig_op_count =
      ap (λ r. r.0) e in
    rw same (
      p2sh_multisig_utxos Value redeem_script sig_op_count selected,
      omega (
        arith,
        leb→le _ _ few,
        length-map (p2sh_multisig Value redeem_script sig_op_count) selected,
      ),
      (_, refl),
      plan_of_lem Value selected destination fee script redeem_script sig_op_count covered,
    )
