-- ===== src/Kspt/Reader/Yields.antt =====
-- What holds of the value that a reader reads, whichever bytes it is given.
use kaspa_portal.Base.{
  ◌≡◌, ◌≤◌, refl, Bool, true, false, ℕ, length, leb, arith, inl, inr, Bool-cases, length-take,
}
use kaspa_portal.Base.Bytes.{Bytes}
use kaspa_portal.Base.Outcome.{Result, ok, err}
use kaspa_portal.Kspt.Model.{WireError}
use kaspa_portal.Kspt.Reader.{Reader, continue, ◌>>=◌, pure, ensure, bytes}

abbrev pub Yielded : {A : Type 0} → (A → Type 0) → Result WireError (A × Bytes) → Type 0
Yielded P (ok (a, rest)) = P a
Yielded P (err e) = Unit {0}

-- What a reader reads has this property.
pub record Yields {A : Type 0} (P : A → Type 0) (m : Reader A) : Type 0 where
  pub at : (bs : Bytes) → Yielded P (m bs)

Yielded-continue :
    {A B : Type 0} (P : A → Type 0) (Q : B → Type 0) (r : Result WireError (A × Bytes))
    (f : A → Reader B)
    → Yielded P r
    → ((a : A) → P a → Yields Q (f a))
    → Yielded Q (continue r f)
Yielded-continue P Q (ok (a, rest)) f h k = (k a h).at rest
Yielded-continue P Q (err e) f h k = tt

module _ {A B : Type 0} {P : A → Type 0} {Q : B → Type 0} {m : Reader A} {f : A → Reader B} where
  pub Yields->>= : Yields P m → ((a : A) → P a → Yields Q (f a)) → Yields Q (m >>= f)
  Yields->>= ym yf = record { at = λ bs. Yielded-continue P Q (m bs) f (ym.at bs) yf }

abbrev pub Anything : {A : Type 0} → A → Type 0
Anything a = Unit {0}

Yielded-any : {A : Type 0} (r : Result WireError (A × Bytes)) → Yielded Anything r
Yielded-any (ok (a, rest)) = tt
Yielded-any (err e) = tt

pub Yields-any : {A : Type 0} (m : Reader A) → Yields Anything m
Yields-any m = record { at = λ bs. Yielded-any (m bs) }

pub Yields-pure : {A : Type 0} (P : A → Type 0) (a : A) → P a → Yields P (pure a)
unfolding pure
Yields-pure P a h = record { at = λ bs. h }

pub Yields-ensure : (b : Bool) (e : WireError) → Yields (λ _. b ≡ true) (ensure b e)
unfolding ensure
Yields-ensure true e = record { at = λ bs. refl }
Yields-ensure false e = record { at = λ bs. tt }

pub Yields-bytes : (n : ℕ) → Yields (λ v. length v ≤ n) (bytes n)
unfolding bytes
Yields-bytes n = record {
  at = λ bs. elim (Bool-cases (leb n (length bs))) [
    | inl h ↦ rw h (omega (arith, length-take n bs))
    | inr h ↦ rw h tt
  ];
}
