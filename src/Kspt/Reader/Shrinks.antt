-- ===== src/Kspt/Reader/Shrinks.antt =====
-- A reader leaves no more than it was given.
use kaspa_portal.Base.{
  ℕ, ◌≤◌, Bool, true, false, [], ◌∷◌, length, length-drop, arith, if◌then◌else◌,
}
use kaspa_portal.Base.Bytes.{Bytes}
use kaspa_portal.Base.Outcome.{Result, ok, err}
use kaspa_portal.Kspt.Model.{WireError}
use kaspa_portal.Kspt.Reader.{
  Reader, continue, ◌>>=◌, pure, reject, ensure, bytes, u8, word, script_len, script,
}

abbrev pub NoLonger : {A : Type 0} → ℕ → Result WireError (A × Bytes) → Type 0
NoLonger n (ok (a, rest)) = length rest ≤ n
NoLonger n (err e) = Unit {0}

pub record Shrinks {A : Type 0} (m : Reader A) : Type 0 where
  pub at : (bs : Bytes) → NoLonger (length bs) (m bs)

NoLonger-le :
    {A : Type 0} (r : Result WireError (A × Bytes)) (n k : ℕ) → n ≤ k → NoLonger n r → NoLonger k r
NoLonger-le (ok (a, rest)) n k h f = omega arith
NoLonger-le (err e) n k h f = tt

NoLonger-continue :
    {A B : Type 0} (r : Result WireError (A × Bytes)) (f : A → Reader B) (n : ℕ)
    → NoLonger n r
    → ((a : A) → Shrinks (f a))
    → NoLonger n (continue r f)
NoLonger-continue (ok (a, rest)) f n h k = NoLonger-le (f a rest) (length rest) n h ((k a).at rest)
NoLonger-continue (err e) f n h k = tt

module _ {A B : Type 0} {m : Reader A} {f : A → Reader B} where
  pub Shrinks->>= : Shrinks m → ((a : A) → Shrinks (f a)) → Shrinks (m >>= f)
  Shrinks->>= sm sf = record { at = λ bs. NoLonger-continue (m bs) f (length bs) (sm.at bs) sf }

pub Shrinks-pure : {A : Type 0} (a : A) → Shrinks (pure a)
unfolding pure
Shrinks-pure a = record { at = λ bs. omega arith }

pub Shrinks-reject : {A : Type 0} (e : WireError) → Shrinks (reject {A = A} e)
unfolding reject
Shrinks-reject e = record { at = λ bs. tt }

pub Shrinks-ensure : (b : Bool) (e : WireError) → Shrinks (ensure b e)
unfolding ensure
Shrinks-ensure true e = record { at = λ bs. omega arith }
Shrinks-ensure false e = record { at = λ bs. tt }

pub Shrinks-bytes : (n : ℕ) → Shrinks (bytes n)
unfolding bytes
Shrinks-bytes n = record { at = λ bs. ground (arith, length-drop n bs) }

u8_at : (bs : Bytes) → NoLonger (length bs) (u8 bs)
unfolding u8
u8_at [] = tt
u8_at (b ∷ bs) = omega arith

pub Shrinks-u8 : Shrinks u8
Shrinks-u8 = record { at = u8_at }

pub ruleset shrink_rules =
    (Shrinks->>=, Shrinks-pure, Shrinks-reject, Shrinks-ensure, Shrinks-bytes, Shrinks-u8)

pub Shrinks-word : (n : ℕ) → Shrinks (word n)
unfolding word
Shrinks-word n = search shrink_rules

pub Shrinks-if :
    {A : Type 0} (b : Bool) {m k : Reader A} → Shrinks m → Shrinks k → Shrinks (if b then m else k)
Shrinks-if true sm sk = sm
Shrinks-if false sm sk = sk

Shrinks-script_len : (n : ℕ) → Shrinks (script_len n)
unfolding script_len
Shrinks-script_len n = search (shrink_rules, Shrinks-word, Shrinks-if)

pub Shrinks-script : Shrinks script
unfolding script
Shrinks-script = search (shrink_rules, Shrinks-script_len)

pub ruleset reader_rules = (shrink_rules, Shrinks-word, Shrinks-script, Shrinks-if)
