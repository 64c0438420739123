-- ===== src/Base/Outcome.antt =====
-- Rust's `Result<A, E>` with its `?`, as a do block.
use mathlib.Core.Path.{◌≡◌, refl}
use mathlib.Core.Logic.{◌⊎◌, inl, inr}
use mathlib.Core.Bool.{Bool, true, false}
use mathlib.Core.Option.{Option, none, some}
use mathlib.Core.List.{List, [], ◌∷◌}

pub data Result {ℓ} (E A : Type ℓ) : Type ℓ where
  ok : A → Result E A
  err : E → Result E A

module _ {ℓ} {E : Type ℓ} where
  infixl 5 ◌>>=◌ ◌>>◌
  abbrev pub ◌>>=◌ : {A B : Type ℓ} → Result E A → (A → Result E B) → Result E B
  ok a >>= f = f a
  err e >>= f = err e

  abbrev pub ◌>>◌ : {A B : Type ℓ} → Result E A → Result E B → Result E B
  m >> k = m >>= λ _. k

  -- `if !b { return Err(e) }`
  abbrev pub ensure : Bool → E → Result E (Unit {ℓ})
  ensure true e = ok tt
  ensure false e = err e

  abbrev pub ok_or : {A : Type ℓ} → Option A → E → Result E A
  ok_or none e = err e
  ok_or (some a) e = ok a

  -- `r.map_err(f)`
  abbrev pub map_err : {F A : Type ℓ} → (E → F) → Result E A → Result F A
  map_err f (ok a) = ok a
  map_err f (err e) = err (f e)

  -- `iter.try_fold(s, f)`
  unfoldable pub try_fold {κ} :
      {S : Type ℓ} {A : Type κ} → (S → A → Result E S) → S → List A → Result E S
  try_fold f s [] = ok s
  try_fold f s (x ∷ xs) = f s x >>= λ t. try_fold f t xs

  -- A chain succeeds by both of its steps.
  pub bind-eq-ok :
      {A B : Type ℓ} (r : Result E A) (step : A → Result E B) {result : B}
      → (r >>= step) ≡ ok result
      → (value : A) × (step value ≡ ok result) × (r ≡ ok value)
  bind-eq-ok (err e) step chain = cc
  bind-eq-ok (ok value) step chain = (value, chain, refl)

  pub Result-cases :
      {A : Type ℓ} (r : Result E A) → ((a : A) × (r ≡ ok a)) ⊎ ((e : E) × (r ≡ err e))
  Result-cases (ok a) = inl (a, refl)
  Result-cases (err e) = inr (e, refl)
