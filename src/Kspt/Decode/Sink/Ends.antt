-- ===== src/Kspt/Decode/Sink/Ends.antt =====
-- A decoder that ends: it is never `stuck`, and leaves no more to read than it was given.
use kaspa_portal.Base.{◌≡◌, ℕ, ◌≤◌, Bool, true, false, [], length, arith, if◌then◌else◌}
use kaspa_portal.Base.Bytes.{Bytes}
use kaspa_portal.Base.Outcome.{Result, ok, err}
use kaspa_portal.Kspt.Model.{WireError}
use kaspa_portal.Kspt.Reader.{Reader, ensure}
use kaspa_portal.Kspt.Reader.Shrinks.{NoLonger, Shrinks, reader_rules}
use kaspa_portal.Kspt.Decode.Sink.{
  Method, Outcome, done, failed, stuck, Decoder, ◌>>=◌, pure, lift, read, call, answered, continue,
}

abbrev pub Ended : {E S A : Type 0} → ℕ → Outcome E S A → Type 0
Ended n (done a rest s) = length rest ≤ n
Ended n (failed e s) = Unit {0}
Ended n stuck = ⊥

pub record Ends {E S A : Type 0} (m : Decoder E S A) : Type 0 where
  pub at : (bs : Bytes) (s : S) → Ended (length bs) (m bs s)

pub Ended-le : {E S A : Type 0} (r : Outcome E S A) (n k : ℕ) → n ≤ k → Ended n r → Ended k r
Ended-le (done a rest s) n k h f = omega arith
Ended-le (failed e s) n k h f = tt
Ended-le stuck n k h f = f

pub Ended-continue :
    {E S A B : Type 0} (r : Outcome E S A) (f : A → Decoder E S B) (n : ℕ)
    → Ended n r
    → ((a : A) (rest : Bytes) (s : S) → length rest ≤ n → Ended (length rest) (f a rest s))
    → Ended n (continue r f)
Ended-continue (done a rest s) f n h k = Ended-le (f a rest s) (length rest) n h (k a rest s h)
Ended-continue (failed e s) f n h k = tt
Ended-continue stuck f n h k = h

module _ {E S A B : Type 0} {m : Decoder E S A} {f : A → Decoder E S B} where
  pub Ends->>= : Ends m → ((a : A) → Ends (f a)) → Ends (m >>= f)
  Ends->>= em ef = record {
    at =
        λ bs s. Ended-continue (m bs s) f (length bs) (em.at bs s) (λ a rest t h. (ef a).at rest t);
  }

pub Ends-pure : {E S A : Type 0} (a : A) → Ends (pure {E = E} {S = S} a)
unfolding pure
Ends-pure a = record { at = λ bs s. omega arith }

Ended-read :
    {S A : Type 0} (E : Type 0) (r : Result WireError (A × Bytes)) (s : S) (n : ℕ)
    → NoLonger n r
    → Ended n (read {E = E} r s)
unfolding read
Ended-read E (ok (a, rest)) s n h = h
Ended-read E (err e) s n h = tt

module _ {E S A : Type 0} {m : Reader A} where
  pub Ends-lift : Shrinks m → Ends (lift {E = E} {S = S} m)
  unfolding lift
  Ends-lift sm = record { at = λ bs s. Ended-read E (m bs) s (length bs) (sm.at bs) }

Ended-answered :
    {E S : Type 0} (r : Result E (Unit {0})) (bs : Bytes) (s : S)
    → Ended (length bs) (answered {A = Unit {0}} r s (λ t. done tt bs t))
unfolding answered
Ended-answered (ok u) bs s = omega arith
Ended-answered (err e) bs s = tt

pub Ends-call : {E S : Type 0} (method : Method E S) → Ends (call method)
unfolding call
Ends-call method = record { at = λ bs s. Ended-answered ((method s).0) bs ((method s).1) }

pub Ends-if :
    {E S A : Type 0} (b : Bool) {m k : Decoder E S A} → Ends m → Ends k → Ends (if b then m else k)
Ends-if true em ek = em
Ends-if false em ek = ek

pub ruleset ends_rules = (Ends->>=, Ends-pure, Ends-lift, Ends-call, Ends-if, reader_rules)

-- A decoder's whole run ends, with nothing left to read where it succeeds.
abbrev pub Complete : {E S A : Type 0} → Outcome E S A → Type 0
Complete (done a rest s) = rest ≡ []
Complete (failed e s) = Unit {0}
Complete stuck = ⊥

pub Complete-continue :
    {E S A B : Type 0} (n : ℕ) (r : Outcome E S A) (f : A → Decoder E S B)
    → Ended n r
    → ((a : A) (rest : Bytes) (s : S) → length rest ≤ n → Complete (f a rest s))
    → Complete (continue r f)
Complete-continue n (done a rest s) f h k = k a rest s h
Complete-continue n (failed e s) f h k = tt
Complete-continue n stuck f h k = h

pub record Completes {E S A : Type 0} (m : Decoder E S A) : Type 0 where
  pub at : (bs : Bytes) (s : S) → Complete (m bs s)

module _ {E S A B : Type 0} {m : Decoder E S A} {f : A → Decoder E S B} where
  pub Completes->>= : Ends m → ((a : A) → Completes (f a)) → Completes (m >>= f)
  Completes->>= em cf = record {
    at = λ bs s.
        Complete-continue (length bs) (m bs s) f (em.at bs s) (λ a rest t _. (cf a).at rest t);
  }

Complete-lift-ensure :
    {S : Type 0} (E : Type 0) (b : Bool) (e : WireError) (rest : Bytes) (s : S)
    → rest ≡ []
    → Complete (lift {E = E} (ensure b e) rest s)
unfolding lift read ensure
Complete-lift-ensure E true e rest s h = h
Complete-lift-ensure E false e rest s h = tt

pub Complete-ensured :
    {E S A : Type 0} (r : Outcome E S A) (test : A → Bool) (e : WireError)
    → Complete r
    → Complete (continue r (λ a. lift (ensure (test a) e)))
Complete-ensured (done a rest s) test e h = Complete-lift-ensure _ (test a) e rest s h
Complete-ensured (failed e' s) test e h = tt
Complete-ensured stuck test e h = h

Complete-ended :
    {E S A B : Type 0} (r : Outcome E S A) (b : B)
    → Complete r
    → Complete (continue r (λ _. pure b))
unfolding pure
Complete-ended (done a rest s) b h = h
Complete-ended (failed e s) b h = tt
Complete-ended stuck b h = h

module _ {E S A B : Type 0} {m : Decoder E S A} where
  pub Completes->>-pure : (b : B) → Completes m → Completes (m >>= λ _. pure b)
  Completes->>-pure b cm = record { at = λ bs s. Complete-ended (m bs s) b (cm.at bs s) }
