-- ===== src/Planning/Amounts/Storage.antt =====
-- The checked sums against plain ones: the storage mass of KIP-9 over unbounded numbers.
use kaspa_portal.Base.{
  ℕ, zero, suc, ◌-◌, ◌*◌, ◌/◌, ◌<◌, ◌≡◌, refl, ◌↔◌, max, Bool, true, false, List, [], ◌∷◌, map, All,
  arith, if◌then◌else◌,
}
use kaspa_portal.Base.Checked.{u64_mod, checked_add}
use kaspa_portal.Base.Computes.{
  Computes, Gives-checked_mul, Gives-and_then, Gives-some, Computes-ok_or, Computes-ok,
  Computes_iff, Computes-total, Computes-total_from_zero, Computes-map_err, Computes->>=, sum_by,
}
use kaspa_portal.Base.Outcome.{ok, ok_or, try_fold}
use kaspa_portal.Planning.Errors.{
  Kind, PlanError, input, output, amount_total, plurality_range, mass_range, term_range,
  input_amount_total, arithmetic_mass,
}
use kaspa_portal.Planning.Amounts.{
  Entry, storage_mass_c, checked_sum, plurality_total, storage_mass_term, harmonic_mass,
  uses_relaxed_storage_mass, arithmetic_input_mass, input_mass, storage_mass_estimate,
}

abbrev plain : ℕ → ℕ
plain v = v

AllUnit : {A : Type 0} (xs : List A) → All (λ _. Unit {0}) xs
AllUnit [] = tt
AllUnit (x ∷ xs) = (tt, AllUnit xs)

-- A fold of `checked_add` is the plain sum exactly where that fits 64 bits.
pub Computes-added :
    {A : Type 0} (value : A → ℕ) (e : PlanError) (xs : List A)
    → Computes
        (try_fold (λ total x. ok_or (checked_add total (value x)) e) 0 xs)
        (sum_by value xs)
        (sum_by value xs < u64_mod)
Computes-added value e xs =
    Computes_iff
      (Computes-total (λ x. ok (value x)) e value (λ _. Unit {0}) (λ x. Computes-ok (value x)) xs 0
        (omega arith))
      (λ p. omega arith) (λ q. (AllUnit xs, omega arith)) (omega arith)

pub Computes-checked_sum :
    (values : List ℕ)
    → Computes (checked_sum values) (sum_by plain values) (sum_by plain values < u64_mod)
unfolding checked_sum
Computes-checked_sum values = Computes-added plain amount_total values

-- `checked_sum` returns a total exactly if the sum of the values fits 64 bits, and it is that sum:
-- no partial sum overflows before.
pub checked_sum-eq-ok :
    (values : List ℕ) (total : ℕ)
    → (checked_sum values ≡ ok total)
      ↔ ((sum_by plain values < u64_mod) × (total ≡ sum_by plain values))
checked_sum-eq-ok values total = (
  λ h. (Computes-checked_sum values).sound total h,
  λ p. rw p.1 ((Computes-checked_sum values).complete p.0),
)

-- The term C · p² / a of an entry.
pub term_of : Entry → ℕ
term_of entry = storage_mass_c * entry.1 * entry.1 / max entry.0 1

pub TermFits : Entry → Type 0
TermFits entry =
    (storage_mass_c * entry.1 < u64_mod) × (storage_mass_c * entry.1 * entry.1 < u64_mod)

Computes-storage_mass_term :
    (kind : Kind) (entry : Entry)
    → Computes (storage_mass_term entry.0 entry.1 kind) (term_of entry) (TermFits entry)
unfolding storage_mass_term term_of TermFits
Computes-storage_mass_term kind entry =
    Computes_iff
      (Computes-ok_or (term_range kind) (
        Gives-and_then _
          (Gives-and_then _ (Gives-checked_mul storage_mass_c entry.1)
            (Gives-checked_mul _ entry.1))
          (Gives-some _)))
      (λ p. p.0) (λ q. (q, tt)) refl

pub harmonic : List Entry → ℕ
harmonic entries = sum_by term_of entries

Computes-harmonic_mass :
    (kind : Kind) (entries : List Entry)
    → Computes
        (harmonic_mass entries kind)
        (harmonic entries)
        (All TermFits entries × (harmonic entries < u64_mod))
unfolding harmonic_mass harmonic
Computes-harmonic_mass kind entries =
    Computes-total_from_zero (λ entry. storage_mass_term entry.0 entry.1 kind) (mass_range kind)
      term_of TermFits (Computes-storage_mass_term kind) entries

pub plurality : List Entry → ℕ
plurality entries = sum_by (λ entry. entry.1) entries

Computes-plurality_total :
    (kind : Kind) (entries : List Entry)
    → Computes (plurality_total entries kind) (plurality entries) (plurality entries < u64_mod)
unfolding plurality_total plurality
Computes-plurality_total kind entries =
    Computes-added (λ entry. entry.1) (plurality_range kind) entries

pub amounts : List Entry → List ℕ
amounts entries = map (λ entry. entry.0) entries

-- The mass of inputs that all have the mean amount.
pub arithmetic : List Entry → ℕ
arithmetic ins =
    plurality ins * (storage_mass_c / max (sum_by plain (amounts ins) / max (plurality ins) 1) 1)

Computes-arithmetic_input_mass :
    (ins : List Entry)
    → Computes
        (arithmetic_input_mass ins (plurality ins))
        (arithmetic ins)
        ((sum_by plain (amounts ins) < u64_mod) × (arithmetic ins < u64_mod))
unfolding arithmetic_input_mass arithmetic amounts
Computes-arithmetic_input_mass ins =
    Computes->>= _ (Computes-map_err (λ _. input_amount_total) (Computes-checked_sum _))
      (Computes-ok_or arithmetic_mass (Gives-checked_mul _ _))

-- The inputs' part is the harmonic or the arithmetic mass, by the shape of the transaction.
abbrev pub input_part : Bool → List Entry → ℕ
input_part true ins = harmonic ins
input_part false ins = arithmetic ins

abbrev pub InputsFit : Bool → List Entry → Type 0
InputsFit true ins = All TermFits ins × (harmonic ins < u64_mod)
InputsFit false ins = (sum_by plain (amounts ins) < u64_mod) × (arithmetic ins < u64_mod)

relaxed_or_mean :
    (b : Bool) (ins : List Entry)
    → Computes
        (if b then harmonic_mass ins input else arithmetic_input_mass ins (plurality ins))
        (input_part b ins)
        (InputsFit b ins)
relaxed_or_mean true ins = Computes-harmonic_mass input ins
relaxed_or_mean false ins = Computes-arithmetic_input_mass ins

-- The shapes of KIP-9 with the harmonic mass on both sides: one input, one output, or two of each.
pub is_relaxed : ℕ → ℕ → Bool
is_relaxed (suc zero) outputs = true
is_relaxed zero zero = false
is_relaxed zero (suc zero) = true
is_relaxed zero (suc (suc outputs)) = false
is_relaxed (suc (suc ins)) zero = false
is_relaxed (suc (suc ins)) (suc zero) = true
is_relaxed (suc (suc zero)) (suc (suc zero)) = true
is_relaxed (suc (suc zero)) (suc (suc (suc outputs))) = false
is_relaxed (suc (suc (suc ins))) (suc (suc outputs)) = false

uses_relaxed_storage_mass_lem :
    (ins outputs : ℕ) → uses_relaxed_storage_mass ins outputs ≡ is_relaxed ins outputs
unfolding uses_relaxed_storage_mass is_relaxed
uses_relaxed_storage_mass_lem (suc zero) outputs = ground arith
uses_relaxed_storage_mass_lem zero zero = refl
uses_relaxed_storage_mass_lem zero (suc zero) = refl
uses_relaxed_storage_mass_lem zero (suc (suc outputs)) = ground arith
uses_relaxed_storage_mass_lem (suc (suc ins)) zero = ground arith
uses_relaxed_storage_mass_lem (suc (suc ins)) (suc zero) = ground arith
uses_relaxed_storage_mass_lem (suc (suc zero)) (suc (suc zero)) = refl
uses_relaxed_storage_mass_lem (suc (suc zero)) (suc (suc (suc outputs))) = ground arith
uses_relaxed_storage_mass_lem (suc (suc (suc ins))) (suc (suc outputs)) = ground arith

Computes-input_mass :
    (ins : List Entry) (outputs : ℕ)
    → Computes
        (input_mass ins (plurality ins) outputs)
        (input_part (is_relaxed (plurality ins) outputs) ins)
        (InputsFit (is_relaxed (plurality ins) outputs) ins)
unfolding input_mass
Computes-input_mass ins outputs =
    rw (uses_relaxed_storage_mass_lem (plurality ins) outputs) (relaxed_or_mean _ ins)

-- KIP-9 over unbounded numbers.
pub kip9 : List Entry → List Entry → ℕ
kip9 ins outs = harmonic outs - input_part (is_relaxed (plurality ins) (plurality outs)) ins

-- Every total and every term of the formula fits 64 bits.
pub record StorageFits (ins outs : List Entry) : Type 0 where
  pub outputs : plurality outs < u64_mod
  pub inputs : plurality ins < u64_mod
  pub terms : All TermFits outs
  pub harmonic : harmonic outs < u64_mod
  pub part : InputsFit (is_relaxed (plurality ins) (plurality outs)) ins

pub Computes-storage_mass_estimate :
    (ins outs : List Entry)
    → Computes (storage_mass_estimate ins outs) (kip9 ins outs) (StorageFits ins outs)
unfolding storage_mass_estimate kip9
Computes-storage_mass_estimate ins outs =
    Computes_iff
      (Computes->>= _ (Computes-plurality_total output outs) (
        Computes->>= _ (Computes-plurality_total input ins) (
          Computes->>= _ (Computes-harmonic_mass output outs)
            (Computes->>= _ (Computes-input_mass ins (plurality outs)) (Computes-ok _)))))
      (λ p. record {
        outputs = p.0;
        inputs = p.1.0;
        terms = p.1.1.0.0;
        harmonic = p.1.1.0.1;
        part = p.1.1.1.0;
      })
      (λ q. (q.outputs, (q.inputs, ((q.terms, q.harmonic), (q.part, tt))))) refl

-- `storage_mass_estimate` returns a mass exactly if both pluralities, the products C · p and C · p · p of
-- every entry whose term is used and the sums of the terms, or the sum of the input amounts and the
-- arithmetic mass, fit 64 bits, and then it is the KIP-9 formula over unbounded numbers, stopped at 0.
pub storage_mass_estimate-eq-ok :
    (ins outs : List Entry) (mass : ℕ)
    → (storage_mass_estimate ins outs ≡ ok mass) ↔ (StorageFits ins outs × (mass ≡ kip9 ins outs))
storage_mass_estimate-eq-ok ins outs mass = (
  λ h. (Computes-storage_mass_estimate ins outs).sound mass h,
  λ p. rw p.1 ((Computes-storage_mass_estimate ins outs).complete p.0),
)
