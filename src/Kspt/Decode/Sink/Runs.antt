-- ===== src/Kspt/Decode/Sink/Runs.antt =====
-- What holds of the sink behind a decoder, whichever bytes it is given: where it succeeds, of its value and the
-- sink, and where it fails, of what the sink received before.
use kaspa_portal.Base.Bytes.{Bytes}
use kaspa_portal.Base.Outcome.{Result, ok, err}
use kaspa_portal.Kspt.Model.{WireError}
use kaspa_portal.Kspt.Reader.{Reader}
use kaspa_portal.Kspt.Reader.Yields.{Yielded, Yields, Anything}
use kaspa_portal.Kspt.Decode.Sink.{
  Method, Outcome, done, failed, stuck, Decoder, ◌>>=◌, pure, lift, read, call, answered, continue,
}

module _ {E S : Type 0} where
  abbrev pub Ran :
      {A : Type 0} → (S → Type 0) → (S → Type 0) → (A → Type 0) → Outcome E S A → Type 0
  Ran Post Fail P (done a rest s) = P a × Post s
  Ran Post Fail P (failed e s) = Fail s
  Ran Post Fail P stuck = Unit {0}

  pub record Runs {A : Type 0} (Pre Post Fail : S → Type 0) (P : A → Type 0) (m : Decoder E S A)
      : Type 0 where
    pub at : (bs : Bytes) (s : S) → Pre s → Ran Post Fail P (m bs s)

  pub Ran-continue :
      {A B : Type 0} (Mid Post Fail : S → Type 0) (P : A → Type 0) (Q : B → Type 0)
      (r : Outcome E S A) (f : A → Decoder E S B)
      → Ran Mid Fail P r
      → ((a : A) → P a → Runs Mid Post Fail Q (f a))
      → Ran Post Fail Q (continue r f)
  Ran-continue Mid Post Fail P Q (done a rest s) f (p, h) k = (k a p).at rest s h
  Ran-continue Mid Post Fail P Q (failed e s) f h k = h
  Ran-continue Mid Post Fail P Q stuck f h k = tt

  module _ {A B : Type 0} {Pre Mid Post Fail : S → Type 0} {P : A → Type 0} {Q : B → Type 0}
      {m : Decoder E S A} {f : A → Decoder E S B} where
    pub Runs->>= :
        Runs Pre Mid Fail P m
        → ((a : A) → P a → Runs Mid Post Fail Q (f a))
        → Runs Pre Post Fail Q (m >>= f)
    Runs->>= rm rf = record {
      at = λ bs s h. Ran-continue Mid Post Fail P Q (m bs s) f (rm.at bs s h) rf;
    }

  module _ (I Fail : S → Type 0) where
    pub Runs-pure : {A : Type 0} (P : A → Type 0) (a : A) → P a → Runs I I Fail P (pure a)
    unfolding pure
    Runs-pure P a p = record { at = λ bs s h. (p, h) }

Ran-read :
    {S A : Type 0} (E : Type 0) (I Fail : S → Type 0) (weak : (s : S) → I s → Fail s)
    (P : A → Type 0) (r : Result WireError (A × Bytes)) (s : S)
    → Yielded P r
    → I s
    → Ran I Fail P (read {E = E} r s)
unfolding read
Ran-read E I Fail weak P (ok (a, rest)) s y h = (y, h)
Ran-read E I Fail weak P (err e) s y h = weak s h

module _ {E S : Type 0} where
  module _ (I Fail : S → Type 0) (weak : (s : S) → I s → Fail s) where
    pub Runs-lift :
        {A : Type 0} (P : A → Type 0) (m : Reader A) → Yields P m → Runs {E = E} I I Fail P (lift m)
    unfolding lift
    Runs-lift P m y = record { at = λ bs s h. Ran-read E I Fail weak P (m bs) s (y.at bs) h }

  Ran-answered :
      (Post Fail : S → Type 0) (weak : (s : S) → Post s → Fail s) (r : Result E (Unit {0}))
      (bs : Bytes) (s : S)
      → Post s
      → Ran Post Fail Anything (answered {A = Unit {0}} r s (λ t. done tt bs t))
  unfolding answered
  Ran-answered Post Fail weak (ok u) bs s h = (tt, h)
  Ran-answered Post Fail weak (err e) bs s h = weak s h

  pub Runs-call :
      (Pre Post Fail : S → Type 0) (weak : (s : S) → Post s → Fail s) (method : Method E S)
      → ((s : S) → Pre s → Post (method s).1)
      → Runs Pre Post Fail Anything (call method)
  unfolding call
  Runs-call Pre Post Fail weak method k = record {
    at = λ bs s h. Ran-answered Post Fail weak (method s).0 bs (method s).1 (k s h);
  }
